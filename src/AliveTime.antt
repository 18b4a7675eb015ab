-- ===== src/AliveTime.antt =====
-- SaveAliveTime and LoadAliveTime of firmware/storage/reset_log.cpp: /DEVICE/alive.bin.
use diy_ebook.Prelude.{
  ℕ, ◌^◌, ◌<◌, ◌≡◌, ap, ◌∙◌, Bool, true, Option, none, some, [], ◌++◌, length, drop, codes, ◌==◌,
  ◌&&◌, not, if◌then◌else◌,
}
use diy_ebook.Qpk.ByteOrder.{Bytes, at, read32, write32, read32-bytes}
use diy_ebook.Storage.{Storage, FilePath, read, slice_of}

abbrev pub alive_path : FilePath
alive_path = codes "/DEVICE/alive.bin"

unfoldable pub encode_time : ℕ → Bytes
unfolding write32
encode_time unix_seconds = codes "ALV1" ++ write32 unix_seconds

-- What LoadAliveTime makes of the bytes that it read.
unfoldable pub decode_time : Option Bytes → ℕ
decode_time none = 0
decode_time (some r) =
    if not (length r == 8)
    then 0
    else if not (at r 0 == b'A' && at r 1 == b'L' && at r 2 == b'V' && at r 3 == b'1')
    then 0
    else read32 (drop 4 r)

module _ (s : Storage) where
  unfoldable pub save_alive_time : ℕ → s.Card → Bool × s.Card
  unfolding encode_time
  save_alive_time unix_seconds c = s.write_all alive_path (encode_time unix_seconds) c

  unfoldable pub load_alive_time : s.Card → ℕ
  unfolding decode_time read
  load_alive_time c = decode_time (read s alive_path 0 8 c)

  decode_time-encode_time :
      (t : ℕ) → t < 2 ^ 32 → decode_time (slice_of 0 8 (some (encode_time t))) ≡ t
  unfolding decode_time encode_time slice_of
  decode_time-encode_time t h = read32-bytes t h []

  -- A time that fits 32 bits and was saved with success is the time that is loaded.
  pub load_alive_time-save_alive_time :
      (t : ℕ) (c : s.Card)
      → t < 2 ^ 32
      → (save_alive_time t c).0 ≡ true
      → load_alive_time (save_alive_time t c).1 ≡ t
  unfolding load_alive_time save_alive_time read
  load_alive_time-save_alive_time t c h saved =
      ap (λ (f : Option Bytes). decode_time (slice_of 0 8 f))
        (s.write_all_done alive_path (encode_time t) c saved)
      ∙ decode_time-encode_time t h
