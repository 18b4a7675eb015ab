-- ===== src/Verified/Laws.antt =====
-- What a package that was added is after a restart.
use diy_ebook.Prelude.{
  ℕ, zero, suc, ◌≡◌, refl, ap, sym, ◌∙◌, arith, Bool, true, List, [], ◌∷◌, take, length, All,
  same_refl,
}
use diy_ebook.Storage.{Storage}
use diy_ebook.Slots.{Slots, IsValid, listed, erase_first, any_slot}
use diy_ebook.Slots.Front.{listed-add_front, add_front-IsValid}
use diy_ebook.Slots.Keep.{All-erase_first, All-take}
use diy_ebook.RecordFile.RoundTrip
use diy_ebook.Verified.{
  PackageFingerprint, max_verified_packages, blank, same_package, add, contains,
}
use diy_ebook.Verified.File.{Fits, load, save, verified_file, verified_file-IsLawful}

same_package_refl : (x : PackageFingerprint) → same_package x x ≡ true
unfolding same_package
same_package_refl x = ground (arith, same_refl x.content_id)

any_slot-take :
    (p : PackageFingerprint → Bool) (n : ℕ) (xs : List PackageFingerprint)
    → any_slot p n xs ≡ any_slot p (length (take n xs)) (take n xs)
unfolding any_slot
any_slot-take p zero xs = refl
any_slot-take p (suc n) [] = refl
any_slot-take p (suc n) (x ∷ xs) = ground (arith, any_slot-take p n xs)

-- What `contains` answers depends only on the entries in use.
contains-listed :
    (x : PackageFingerprint) (s t : Slots PackageFingerprint)
    → listed s ≡ listed t
    → contains x s ≡ contains x t
unfolding contains
contains-listed x s t e =
    any_slot-take _ s.count s.items
    ∙ ap (λ (l : List PackageFingerprint). any_slot (λ y. same_package y x) (length l) l) e
    ∙ sym (any_slot-take _ t.count t.items)

contains-head :
    (x : PackageFingerprint) (s : Slots PackageFingerprint) (xs : List PackageFingerprint)
    → listed s ≡ x ∷ xs
    → contains x s ≡ true
unfolding contains any_slot
contains-head x s xs e =
    any_slot-take _ s.count s.items
    ∙ ap (λ (l : List PackageFingerprint). any_slot (λ y. same_package y x) (length l) l) e
    ∙ rw (same_package_refl x)

-- A package whose fields fit their types, added to a valid list that is then saved with success, is
-- contained in what the next load finds.
pub contains-load-save-add :
    (s : Storage) (x : PackageFingerprint) (slots fresh : Slots PackageFingerprint) (c : s.Card)
    → IsValid max_verified_packages slots
    → Fits x
    → All Fits (listed slots)
    → (save s (add x slots) c).0 ≡ true
    → contains x (load s fresh (save s (add x slots) c).1) ≡ true
unfolding add load save
contains-load-save-add s x slots fresh c v fit fits saved =
    let p = λ (y : PackageFingerprint). same_package y x in
    let others = take 63 (erase_first p (listed slots)) in
    let front : listed (add x slots) ≡ x ∷ others =
      listed-add_front p max_verified_packages blank x slots (omega arith) v in
    let kept : All Fits (listed (add x slots)) =
      rw front (fit, All-take Fits 63 _ (All-erase_first Fits p (listed slots) fits)) in
    let v' : IsValid max_verified_packages (add x slots) =
      add_front-IsValid p max_verified_packages blank x slots v in
    contains-head x _ others (
      RoundTrip.load-save verified_file verified_file-IsLawful s (add x slots) fresh c v' kept saved
      ∙ front)
