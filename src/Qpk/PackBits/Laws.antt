-- ===== src/Qpk/PackBits/Laws.antt =====
-- UnpackBits of firmware/qpk/qpk_reader.cpp and the packets that it reads.
use diy_ebook.Prelude.{
  ℕ, zero, suc, ◌+◌, ◌-◌, ◌≤◌, ◌<◌, ◌≡◌, arith, refl, sym, ap, subst, ◌∙◌, Bool, true, false,
  Option, none, some, List, [], ◌∷◌, ◌++◌, All, ltb, ◌==◌, ◌||◌, or-false, length, take, drop,
  replicate, if◌then◌else◌, length-take, length-append, length-replicate, take-append, drop-append,
}
use diy_ebook.Qpk.ByteOrder.{Bytes}
use diy_ebook.Qpk.PackBits.{unpack, unpack_bits, written}

branch :
    (b : Bool) (one other : Option Bytes) (P : Option Bytes → Type 0)
    → (b ≡ true → P one)
    → (b ≡ false → P other)
    → P (elim b [ true ↦ one | false ↦ other ])
branch true one other P t f = t refl
branch false one other P t f = f refl

-- A result of the whole room.
abbrev Fills : ℕ → Option Bytes → Type 0
Fills room none = Unit {0}
Fills room (some out) = length out ≡ room

written-Fills :
    (front : Bytes) (room : ℕ) (rest : Option Bytes)
    → length front ≤ room
    → Fills (room - length front) rest
    → Fills room (written front rest)
written-Fills front room none h k = tt
written-Fills front room (some rest) h k = omega (arith, length-append front rest)

not_less : (a b : ℕ) → ltb a b ≡ false → b ≤ a
not_less a b h = ground arith

not_zero : (n : ℕ) → false ≡ (suc n == 0)
not_zero n = ground arith

ends : (room : ℕ) → Fills room (if room == 0 then some [] else none)
ends zero = refl
ends (suc room) =
    subst (λ (b : Bool). Fills (suc room) (if b then some [] else none)) (not_zero room) tt

replace : (room : ℕ) (a b : ℕ) (o : Option Bytes) → a ≡ b → Fills (room - a) o → Fills (room - b) o
replace room a b o e h = subst (λ (k : ℕ). Fills (room - k) o) e h

module _ (rounds : ℕ)
    (shorter : (src : Bytes) (room : ℕ) → Fills room (unpack rounds src room)) where
  literal-Fills :
      (n room : ℕ) (src : Bytes)
      → (ltb (length src) (n + 1) || ltb room (n + 1)) ≡ false
      → Fills room (written (take (n + 1) src) (unpack rounds (drop (n + 1) src) (room - (n + 1))))
  literal-Fills n room src h =
      let s = or-false (ltb (length src) (n + 1)) (ltb room (n + 1)) h in
      let l : length (take (n + 1) src) ≡ n + 1 =
        omega (arith, length-take (n + 1) src, not_less (length src) (n + 1) s.0) in
      written-Fills (take (n + 1) src) room _ (omega (arith, l, not_less room (n + 1) s.1))
        (replace room (n + 1) _ _ (sym l) (shorter (drop (n + 1) src) (room - (n + 1))))

  run-Fills :
      (count value room : ℕ) (src : Bytes)
      → ltb room count ≡ false
      → Fills room (written (replicate count value) (unpack rounds src (room - count)))
  run-Fills count value room src h =
      let l = length-replicate count value in
      written-Fills (replicate count value) room _ (omega (arith, l, not_less room count h))
        (replace room count _ _ (sym l) (shorter src (room - count)))

  -- A run with its value behind it, or the end of the source.
  repeated-Fills :
      (n room : ℕ) (src : Bytes)
      → Fills room (elim src [
        | [] ↦ none
        | value ∷ rest ↦ elim (ltb room (257 - n)) [
          | true ↦ none
          | false ↦ written (replicate (257 - n) value) (unpack rounds rest (room - (257 - n)))
        ]
      ])
  repeated-Fills n room [] = tt
  repeated-Fills n room (value ∷ rest) =
      branch (ltb room (257 - n)) _ _ (Fills room) (λ h. tt)
        (λ h. run-Fills (257 - n) value room rest h)

unpack-Fills : (rounds : ℕ) (src : Bytes) (room : ℕ) → Fills room (unpack rounds src room)
unfolding unpack
unpack-Fills rounds [] room = ends room
unpack-Fills zero (n ∷ src) room = tt
unpack-Fills (suc rounds) (n ∷ src) room =
    branch (ltb n 128) _ _ (Fills room)
      (λ t.
        branch (ltb (length src) (n + 1) || ltb room (n + 1)) _ _ (Fills room) (λ h. tt)
          (λ h. literal-Fills rounds (unpack-Fills rounds) n room src h))
      (λ t.
        branch (n == 128) _ _ (Fills room) (λ h. unpack-Fills rounds src room)
          (λ h. repeated-Fills rounds (unpack-Fills rounds) n room src))

filled :
    (room : ℕ) (answer : Option Bytes) (out : Bytes)
    → answer ≡ some out
    → Fills room answer
    → length out ≡ room
filled room none out e h = cc
filled room (some all) out e h = cc

-- Where unpack_bits succeeds it has written exactly the bytes of the destination.
pub length-unpack_bits :
    (src : Bytes) (dst_len : ℕ) (out : Bytes)
    → unpack_bits src dst_len ≡ some out
    → length out ≡ dst_len
unfolding unpack_bits
length-unpack_bits src dst_len out e =
    filled dst_len _ out e (unpack-Fills (length src) src dst_len)

-- A packet of the format: bytes as they are, or one byte a number of times.
pub data Packet : Type 0 where
  literal : Bytes → Packet
  run : ℕ → ℕ → Packet

-- The lengths that a packet's first byte can say.
abbrev pub IsPacket : Packet → Type 0
IsPacket (literal bytes) = (1 ≤ length bytes) × (length bytes ≤ 128)
IsPacket (run count value) = (2 ≤ count) × (count ≤ 128)

abbrev pub packed : Packet → Bytes
packed (literal bytes) = (length bytes - 1) ∷ bytes
packed (run count value) = (257 - count) ∷ value ∷ []

abbrev pub pack : List Packet → Bytes
pack [] = []
pack (p ∷ ps) = packed p ++ pack ps

abbrev pub said : Packet → Bytes
said (literal bytes) = bytes
said (run count value) = replicate count value

-- The bytes that packets stand for.
abbrev pub expand : List Packet → Bytes
expand [] = []
expand (p ∷ ps) = said p ++ expand ps

literal-step :
    (rounds n : ℕ) (src : Bytes) (room : ℕ)
    → n < 128
    → n + 1 ≤ length src
    → n + 1 ≤ room
    → unpack (suc rounds) (n ∷ src) room
      ≡ written (take (n + 1) src) (unpack rounds (drop (n + 1) src) (room - (n + 1)))
unfolding unpack
literal-step rounds n src room small enough fits =
    let s : ltb n 128 ≡ true = ground arith in
    let t : (ltb (length src) (n + 1) || ltb room (n + 1)) ≡ false = ground arith in
    rw (s, t, unpack) refl

run-step :
    (rounds n value : ℕ) (src : Bytes) (room : ℕ)
    → 128 < n
    → 257 - n ≤ room
    → unpack (suc rounds) (n ∷ value ∷ src) room
      ≡ written (replicate (257 - n) value) (unpack rounds src (room - (257 - n)))
unfolding unpack
run-step rounds n value src room large fits =
    let s : ltb n 128 ≡ false = ground arith in
    let t : (n == 128) ≡ false = ground arith in
    let u : ltb room (257 - n) ≡ false = ground arith in rw (s, t, u, unpack) refl

unpack-pack :
    (ps : List Packet) (rounds : ℕ)
    → All IsPacket ps
    → length (pack ps) ≤ rounds
    → unpack rounds (pack ps) (length (expand ps)) ≡ some (expand ps)
unpack-pack [] rounds valid enough = unfold unpack in refl
unpack-pack (literal bytes ∷ ps) zero valid enough = absurd (omega arith)
unpack-pack (run count value ∷ ps) zero valid enough = absurd (omega arith)
unpack-pack (literal bytes ∷ ps) (suc rounds) valid enough =
    let n : length bytes - 1 + 1 ≡ length bytes = omega (arith, valid.0) in
    let l = length-append bytes (expand ps) in
    let k = length-append bytes (pack ps) in
    literal-step rounds (length bytes - 1) (bytes ++ pack ps) (length (bytes ++ expand ps))
      (omega (arith, valid.0)) (omega (arith, n, k)) (omega (arith, n, l))
    ∙ rw (n, take-append bytes (pack ps), drop-append bytes (pack ps))
        (ap (written bytes) (
          ap (unpack rounds (pack ps)) (omega (arith, l))
          ∙ unpack-pack ps rounds valid.1 (omega (arith, enough, k))))
unpack-pack (run count value ∷ ps) (suc rounds) valid enough =
    let n : 257 - (257 - count) ≡ count = omega (arith, valid.0) in
    let l = length-append (replicate count value) (expand ps) in
    let r = length-replicate count value in
    run-step rounds (257 - count) value (pack ps) (length (replicate count value ++ expand ps))
      (omega (arith, valid.0)) (omega (arith, n, l, r))
    ∙ rw n (
        ap (written (replicate count value)) (
          ap (unpack rounds (pack ps)) (omega (arith, l, r))
          ∙ unpack-pack ps rounds valid.1 (omega (arith, enough))))

-- Packets of lengths that their first byte can say, written one behind another, unpack to the bytes
-- that they stand for.
pub unpack_bits-pack :
    (ps : List Packet)
    → All IsPacket ps
    → unpack_bits (pack ps) (length (expand ps)) ≡ some (expand ps)
unfolding unpack_bits
unpack_bits-pack ps valid = unpack-pack ps (length (pack ps)) valid (omega arith)
