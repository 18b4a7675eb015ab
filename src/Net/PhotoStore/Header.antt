-- ===== src/Net/PhotoStore/Header.antt =====
-- firmware/wifi/photo_store.cpp: ParsePhotoHeader takes the one header that WritePhotoHeader writes.
use diy_ebook.Prelude.{
  ℕ, ◌+◌, ◌*◌, ◌^◌, ◌<◌, ◌≡◌, ◌↔◌, refl, ap, sym, ◌∙◌, Bool, true, false, ◌||◌, not, [], ◌∷◌,
  length, All, ◌==◌, if◌then◌else◌, codes, arith, same, same→eq, ==_iff,
}
use diy_ebook.Prelude.Bits.{bit_or-high}
use diy_ebook.Qpk.ByteOrder.{Bytes, IsByte, read16, Sixteen, sixteen, Sixteen-length}
use diy_ebook.Net.PhotoStore.{
  parse_photo_header, write_photo_header, photo_header_bytes, photo_width, photo_height,
}

passes :
    (a b c d e : Bool)
    → (if not a then false else if not b || not c || not d then false else e) ≡ true
    → (a ≡ true) × (b ≡ true) × (c ≡ true) × (d ≡ true) × (e ≡ true)
passes a b c d e h = ground arith

field_eq : (a b v : ℕ) (rest : Bytes) → a < 256 → read16 (a ∷ b ∷ rest) ≡ v → a + b * 2 ^ 8 ≡ v
unfolding read16
field_eq a b v rest h e = sym (bit_or-high 8 a b h) ∙ e

parsed :
    (header : Bytes)
    → Sixteen header
    → All IsByte header
    → parse_photo_header header ≡ true
    → header ≡ write_photo_header
unfolding parse_photo_header write_photo_header
parsed _ (sixteen x0 x1 x2 x3 x4 x5 x6 x7 x8 x9 xa xb xc xd xe xf) bytes h =
    let (magic, width, height, depth, zeros) =
      passes (same (x0 ∷ x1 ∷ x2 ∷ x3 ∷ []) (codes "QPH1"))
        (read16 (x4 ∷ x5 ∷ x6 ∷ x7 ∷ x8 ∷ x9 ∷ xa ∷ xb ∷ xc ∷ xd ∷ xe ∷ xf ∷ []) == photo_width)
        (read16 (x6 ∷ x7 ∷ x8 ∷ x9 ∷ xa ∷ xb ∷ xc ∷ xd ∷ xe ∷ xf ∷ []) == photo_height) (x8 == 2) _
        h in
    let mark = same→eq (x0 ∷ x1 ∷ x2 ∷ x3 ∷ []) (codes "QPH1") magic in
    let tail : Bytes = x8 ∷ x9 ∷ xa ∷ xb ∷ xc ∷ xd ∷ xe ∷ xf ∷ [] in
    let w = field_eq x4 x5 photo_width (x6 ∷ x7 ∷ tail) bytes.1.1.1.1.0 ((==_iff _ _).0 width) in
    let k = field_eq x6 x7 photo_height tail bytes.1.1.1.1.1.1.0 ((==_iff _ _).0 height) in
    ground (arith)

pub parse_photo_header_lem :
    (header : Bytes)
    → All IsByte header
    → length header ≡ photo_header_bytes
    → (parse_photo_header header ≡ true) ↔ (header ≡ write_photo_header)
parse_photo_header_lem header bytes long = (
  parsed header (Sixteen-length header long) bytes,
  λ (e : header ≡ write_photo_header).
      ap parse_photo_header e
      ∙ unfold parse_photo_header in
        unfold write_photo_header in unfold read16 in unfold same in refl,
)
