-- ===== src/Upload/Requests.antt =====
-- The tests of a request at the start of beginUpload.
use diy_ebook.Prelude.{
  ℕ, ◌≤◌, ◌<◌, ◌≡◌, ◌⊎◌, refl, sym, ◌∙◌, arith, inl, inr, Bool-cases, Option-cases, ◌≢◌, true,
  false, some, List, ltb, ◌==◌,
}
use diy_ebook.Storage.{Storage}
use diy_ebook.Protocol.{bad_request, ok, library_dir_for}
use diy_ebook.Upload.Meta.{UploadBegin}
use diy_ebook.Upload.Session.{
  Reply, valid_hex_id, upload_dir, read_meta, begin_session, begin_upload,
}

-- A request that beginUpload does not reject.
pub record IsRequest (request : UploadBegin) : Type 0 where
  pub id : valid_hex_id request.content_id_hex ≡ true
  pub filled : 0 < request.size
  pub small : request.size ≤ 0xFFFFFFFF
  pub folder : (dir : List ℕ) × (library_dir_for request.type ≡ some dir)

bad_request-≢-ok : bad_request ≢ ok
bad_request-≢-ok e = absurd cc

module _ (s : Storage) (request : UploadBegin) (now_unix : ℕ) where
  -- beginUpload once the request passed its tests.
  abbrev in_session : s.Card → Reply × s.Card
  in_session d = begin_session s request (read_meta s request.content_id_hex d) now_unix d

  pub begin_upload-IsRequest :
      (c : s.Card)
      → IsRequest request
      → begin_upload s request now_unix c ≡ in_session (s.mkdirs upload_dir c).1
  unfolding begin_upload
  begin_upload-IsRequest c r =
      let filled : (request.size == 0) ≡ false = ground (arith, r.filled) in
      let small : ltb 0xFFFFFFFF request.size ≡ false = ground (arith, r.small) in
      rw (r.id, filled, r.folder.1, small) refl

  -- A call is refused for its request, or the request passed its tests.
  begin_upload-cases :
      (c : s.Card) → ((begin_upload s request now_unix c).0.error ≡ bad_request) ⊎ IsRequest request
  unfolding begin_upload
  begin_upload-cases c = elim (Bool-cases (valid_hex_id request.content_id_hex)) [
    | inr bad ↦ inl (rw bad refl)
    | inl valid ↦ elim (Bool-cases (request.size == 0)) [
      | inl empty ↦ inl (rw (valid, empty) refl)
      | inr filled ↦ elim (Option-cases (library_dir_for request.type)) [
        | inl unknown ↦ inl (rw (valid, filled, unknown) refl)
        | inr (dir, known) ↦ elim (Bool-cases (ltb 0xFFFFFFFF request.size)) [
          | inl big ↦ inl (rw (valid, filled, known, big) refl)
          | inr small ↦ inr (record {
            id = valid;
            filled = ground (arith, filled);
            small = ground (arith, small);
            folder = (dir, known);
          })
        ]
      ]
    ]
  ]

  pub begin_upload-accepted :
      (c : s.Card) → (begin_upload s request now_unix c).0.error ≡ ok → IsRequest request
  begin_upload-accepted c h = elim (begin_upload-cases c) [
    | inl refused ↦ absurd (bad_request-≢-ok (sym refused ∙ h))
    | inr passed ↦ passed
  ]
