-- ===== src/Qpk/Reader/Opening.antt =====
-- Reader::open with the checksums of the index sections, and without them followed by
-- verifyIndexChecksums: firmware/qpk/qpk_reader.cpp.
use diy_ebook.Prelude.{◌≡◌, ◌≢◌, ◌↔◌, sym, subst, Bool, true, false, not, none, List, if◌then◌else◌}
use diy_ebook.Qpk.File.{File}
use diy_ebook.Qpk.Result.{Error, Result, ok, err, ◌>>=◌, ◌>>◌, done, refuse_if}
use diy_ebook.Qpk.Result
use diy_ebook.Qpk.Result.Success.{ok-inj, then-ok}
use diy_ebook.Qpk.Format.{Header, SectionEntry}
use diy_ebook.Qpk.Reader.{Reader, read_header, read_section_table}
use diy_ebook.Qpk.Reader.Checks.{
  check_sections, open_package, verify_fixed_index_checksums, verify_index_checksums,
  check_index_consistency,
}

err≢ok : {A : Type 0} (e : Error) (a : A) → err e ≢ ok a
err≢ok e a h = cc

not_ok : {A : Type 0} (first : Result (Unit {0})) (e : Error) (a : A) → (first >> err e) ≢ ok a
not_ok (ok u) e a h = err≢ok e a h
not_ok (err e) d a h = err≢ok e a h

after :
    {A : Type 0} (first : Result (Unit {0})) (rest : Result A) (a : A)
    → first ≡ done
    → rest ≡ ok a
    → (first >> rest) ≡ ok a
after (ok u) rest a passed_ h = h
after (err e) rest a passed_ h = cc

module _ (verifying : Reader → Result (Unit {0})) (r : Reader) where
  later :
      (checks consistent : Result (Unit {0})) (o : Reader)
      → ((checks >> (verifying o >> (consistent >> ok o))) ≡ ok r)
        ↔ (((checks >> (done >> (consistent >> ok o))) ≡ ok r) × (verifying r ≡ done))
  later (err e) consistent o = (λ h. absurd (err≢ok _ _ h), λ h. absurd (err≢ok _ _ h.0))
  later (ok u) (err e) o = (λ h. absurd (not_ok (verifying o) e r h), λ h. absurd (err≢ok _ _ h.0))
  later (ok u) (ok v) o = (
    λ h.
        (let s = then-ok (verifying o) (ok o) r h in
          (s.1, subst (λ (t : Reader). verifying t ≡ done) (ok-inj o r s.1) s.0)),
    λ h.
        after (verifying o) (ok o) r
          (subst (λ (t : Reader). verifying t ≡ done) (sym (ok-inj o r h.0)) h.1) h.0,
  )

-- The parts of open up to the tests on the sections.
module _ (f : File) (r : Reader) where
  abbrev reader_of : Header → List SectionEntry → Reader
  reader_of h sections = record { file = f; header = h; sections = sections; glyph_index = none }

  abbrev rest_of_open : Bool → Header → List SectionEntry → Result Reader
  rest_of_open verify h sections =
      check_sections h sections
      >> ((if verify then verify_fixed_index_checksums f sections else done)
          >> (check_index_consistency f sections >> ok (reader_of h sections)))

  with_table :
      (h : Header) (table : Result (List SectionEntry))
      → ((table >>= rest_of_open true h) ≡ ok r)
        ↔ (((table >>= rest_of_open false h) ≡ ok r) × (verify_index_checksums r ≡ done))
  unfolding verify_index_checksums
  with_table h (err e) = (λ g. absurd (err≢ok _ _ g), λ g. absurd (err≢ok _ _ g.0))
  with_table h (ok sections) =
      later verify_index_checksums r (check_sections h sections)
        (check_index_consistency f sections) (reader_of h sections)

  with_header :
      (header : Result Header)
      → ((header >>= λ h. read_section_table f h >>= rest_of_open true h) ≡ ok r) ↔ (
          ((header >>= λ h. read_section_table f h >>= rest_of_open false h) ≡ ok r)
          × (verify_index_checksums r ≡ done))
  with_header (err e) = (λ g. absurd (err≢ok _ _ g), λ g. absurd (err≢ok _ _ g.0))
  with_header (ok h) = with_table h (read_section_table f h)

  with_file :
      (valid : Bool) (rest without : Result Reader)
      → ((rest ≡ ok r) ↔ ((without ≡ ok r) × (verify_index_checksums r ≡ done)))
      → ((refuse_if (not valid) Result.io_error >> rest) ≡ ok r) ↔ (
          ((refuse_if (not valid) Result.io_error >> without) ≡ ok r)
          × (verify_index_checksums r ≡ done))
  with_file true rest without same_ = same_
  with_file false rest without same_ = (λ g. absurd (err≢ok _ _ g), λ g. absurd (err≢ok _ _ g.0))

-- Opening with the checksums of the index sections succeeds with a reader if and only if opening
-- without them does and verify_index_checksums then accepts that reader.
pub open_package-verify :
    (f : File) (r : Reader)
    → (open_package f true ≡ ok r)
      ↔ ((open_package f false ≡ ok r) × (verify_index_checksums r ≡ done))
unfolding open_package
open_package-verify f r = with_file f r f.valid _ _ (with_header f r (read_header f))
