-- ===== src/Bookmarks/File.antt =====
-- bookmarks.bin as a file of records, and what a record survives.
use diy_ebook.Prelude.{
  ℕ, ◌^◌, ◌<◌, ◌≡◌, ◌≢◌, refl, arith, Bool, true, ◌++◌, All, length, same, same→ne,
}
use diy_ebook.Qpk.ByteOrder.{Bytes, IsByte, read32-bytes, Sixteen, sixteen, Sixteen-length}
use diy_ebook.Storage.{Storage}
use diy_ebook.Slots.{Slots, IsValid, listed}
use diy_ebook.RecordFile
use diy_ebook.RecordFile.RoundTrip
use diy_ebook.RecordFile.{Format, IsLawful}
use diy_ebook.Bookmarks.{Bookmark, max_bookmarks, path, temp_path, encode_record, decode_record}

-- The fields hold values of their C++ types.
pub record Fits (x : Bookmark) : Type 0 where
  pub id_length : length x.content_id ≡ 16
  pub id_bytes : All IsByte x.content_id
  pub kind_byte : IsByte x.kind
  pub a_word : x.a < 2 ^ 32
  pub b_word : x.b < 2 ^ 32
  pub c_word : x.c < 2 ^ 32
  pub created_word : x.created_unix < 2 ^ 32

abbrev pub bookmarks_file : Format Bookmark
bookmarks_file = record {
  magic0 = b'B';
  magic1 = b'M';
  magic2 = b'K';
  magic3 = b'1';
  record_bytes = 36;
  capacity = max_bookmarks;
  path = path;
  temp_path = temp_path;
  encode = encode_record;
  decode = decode_record;
  Fits = Fits;
}

unfoldable pub load : (s : Storage) → Slots Bookmark → s.Card → Slots Bookmark
unfolding RecordFile.load
load s slots c = RecordFile.load bookmarks_file s slots c

unfoldable pub save : (s : Storage) → Slots Bookmark → s.Card → Bool × s.Card
unfolding RecordFile.save
save s slots c = RecordFile.save bookmarks_file s slots c

abbrev of_fields : Bytes → ℕ → ℕ → ℕ → ℕ → ℕ → Bookmark
of_fields id kind a b c created = record {
  content_id = id;
  kind = kind;
  a = a;
  b = b;
  c = c;
  created_unix = created;
}

length-encode_fields :
    (id : Bytes) (kind a b c created : ℕ)
    → Sixteen id
    → length (encode_record (of_fields id kind a b c created)) ≡ 36
unfolding encode_record
length-encode_fields id kind a b c created (sixteen _ _ _ _ _ _ _ _ _ _ _ _ _ _ _ _) = refl

bytes-encode_fields :
    (id : Bytes) (kind a b c created : ℕ)
    → Sixteen id
    → All IsByte id
    → IsByte kind
    → All IsByte (encode_record (of_fields id kind a b c created))
unfolding encode_record
bytes-encode_fields id kind a b c created (sixteen _ _ _ _ _ _ _ _ _ _ _ _ _ _ _ _) h k =
    omega arith

decode-encode_fields :
    (id : Bytes) (kind a b c created : ℕ) (rest : Bytes)
    → Sixteen id
    → a < 2 ^ 32
    → b < 2 ^ 32
    → c < 2 ^ 32
    → created < 2 ^ 32
    → decode_record (encode_record (of_fields id kind a b c created) ++ rest)
      ≡ of_fields id kind a b c created
unfolding encode_record decode_record
decode-encode_fields id kind a b c created rest (sixteen _ _ _ _ _ _ _ _ _ _ _ _ _ _ _ _) ha hb hc
      hd =
    rw (read32-bytes a ha, read32-bytes b hb, read32-bytes c hc, read32-bytes created hd)

paths_apart : temp_path ≢ path
paths_apart = same→ne temp_path path (unfold same in refl)

pub bookmarks_file-IsLawful : IsLawful bookmarks_file
bookmarks_file-IsLawful = record {
  length_encode = λ x h.
      length-encode_fields x.content_id x.kind x.a x.b x.c x.created_unix
        (Sixteen-length x.content_id h.id_length);
  encode_bytes = λ x h.
      bytes-encode_fields x.content_id x.kind x.a x.b x.c x.created_unix
        (Sixteen-length x.content_id h.id_length) h.id_bytes h.kind_byte;
  decode_encode = λ x rest h.
      decode-encode_fields x.content_id x.kind x.a x.b x.c x.created_unix rest
        (Sixteen-length x.content_id h.id_length) h.a_word h.b_word h.c_word h.created_word;
  capacity_fits = omega arith;
  apart = paths_apart;
}

-- A valid list of bookmarks whose fields fit their types, saved with success, is the list of the
-- next load.
pub load-save :
    (s : Storage) (slots fresh : Slots Bookmark) (c : s.Card)
    → IsValid max_bookmarks slots
    → All Fits (listed slots)
    → (save s slots c).0 ≡ true
    → listed (load s fresh (save s slots c).1) ≡ listed slots
unfolding load save
load-save s slots fresh c v fits saved =
    RoundTrip.load-save bookmarks_file bookmarks_file-IsLawful s slots fresh c v fits saved
