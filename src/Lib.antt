-- ===== src/Lib.antt =====
-- The firmware of an E-ink reader (firmware/): the parts of it that keep state on the card and
-- that decide what the reader shows.
--
-- Parts and files:
--  * Prelude: numbers, tests, lists and bits that all parts use.
--  * Qpk: the package format's little-endian fields (firmware/include/qpk/byte_order.h:
--    read16, write16 and their kin) and its checksum (firmware/qpk/crc32.cpp: crc32_update,
--    crc32).
--  * Qpk.File: hal::IFile (firmware/include/hal/storage.h) with read_exact and the file in memory
--    (firmware/include/qpk/memory_file.h). Qpk.Format, Qpk.Records and Qpk.Result are the
--    constants, records and errors (firmware/include/qpk/qpk_format.h,
--    firmware/include/qpk/qpk_reader.h); Qpk.PackBits is UnpackBits. Qpk.Reader has the parts of
--    Reader::open of firmware/qpk/qpk_reader.cpp that read and check the header and the section
--    table, Qpk.Reader.Checks the checksums and the whole of open, Qpk.Reader.Access the records,
--    Qpk.Reader.Blobs covers, page pictures and metadata, Qpk.Reader.Search the layout and the
--    searches by word, Qpk.Reader.Glyphs the glyphs and their index. The other modules below
--    Qpk.Reader are proofs.
--  * Storage: the card behind hal::IStorage (firmware/include/hal/storage.h) as a record of
--    operations and their contract; Storage.Memory is a card in memory that meets it,
--    Storage.Commit the .tmp-then-rename sequence that the small files are rewritten by.
--  * Slots: the arrays with a count that lists are kept in, and the loops over them.
--  * RecordFile: a file of fixed-size records with a checked header; Bookmarks
--    (firmware/include/net/bookmarks.h, firmware/storage/bookmarks.cpp) and Verified
--    (firmware/include/net/verified_packages.h, firmware/storage/verified_packages.cpp) are
--    instances of it.
--  * Library: content ids, paths, the copying of titles and the entries of the index
--    (firmware/storage/library_index.cpp: join_path, build_location, hex_to_content_id,
--    copy_utf8_truncated, find, upsert, remove); Library.Describe has describe_package, prune and
--    rebuild, Library.IndexFile the load and save of the index.
--  * Protocol: error codes and package types (firmware/include/net/protocol.h,
--    firmware/wifi/protocol.cpp).
--  * Upload: resumable sessions (firmware/wifi/upload_manager.cpp). Upload.Meta is the .meta
--    file, Upload.Session has begin_upload, write_chunk and abort, with all state on the card
--    that is passed along, Upload.Finish has finish, open_session_count and sweep_orphans.
--  * Input: the debouncer and the button (firmware/include/util/debouncer.h), and the rule for
--    going back to sleep (firmware/include/util/idle_policy.h); Input.Queue is the ring of events
--    (push and nextEvent of firmware/drivers/input/input_manager.cpp).
--  * Provisioning: what a phone sends over Bluetooth to connect the device
--    (firmware/include/net/provisioning_state.h, firmware/ble/provisioning_state.cpp);
--    Provisioning.Runs has the runs, Provisioning.StatusJson the document that the phone polls
--    (writeStatusJson, and publishStatus of firmware/drivers/net/ble_provisioning.cpp).
--  * AliveTime: the time of the last run (firmware/storage/reset_log.cpp).
--  * Progress: where the reader left off (firmware/storage/reading_progress.cpp).
--  * Json: the reader and the writer of JSON (firmware/include/net/json.h, firmware/wifi/json.cpp).
--    Json.Writer is JsonWriter (raw_char, escaped, key_string, key_uint and their kin), Json.Reader
--    the scanning of JsonReader (skip_string, skip_value, find_value), Json.Values its getters.
--    Json.Written is the text that calls of the writer stand for, Json.Fields flat objects; the
--    other modules below Json are proofs.
--  * Net: what is judged when it arrives over the network. Net.Base64 is DecodeBase64
--    (firmware/wifi/base64.cpp) with an encoder by RFC 4648 to compare it with, Net.Auth the check
--    of the pairing token (firmware/include/net/auth.h), Net.Allowed the time zones and the photo
--    names (firmware/wifi/time_zone.cpp, firmware/wifi/photo_store.cpp). Net.PhotoStore has
--    write_chunk, finish, remove_photo and load of firmware/wifi/photo_store.cpp on the card,
--    Net.PhotoStore.Listed its list, Net.PhotoStore.Requests sequences of calls.
--  * TextPager: word wrapping and pages (firmware/include/util/text_pager.h).
--  * Witnesses: the theorems at concrete inputs.
--
-- How the code corresponds: a method that changes its object takes the state last and returns it;
-- a call of the card returns its result with the card after it. An out parameter is an optional
-- value of the reply. Texts are lists of character codes before the NUL, buffers are lists of
-- bytes, integers are natural numbers with the wrap-around written out. A null pointer argument is
-- not modelled. A failed append may leave a first part of its bytes, a failed removal or renaming
-- changes nothing, and reads are reliable: these are the laws of the record Storage. A package's
-- file may read short or fail; a closed reader has no value, so kNotOpen does not occur.
--
-- Bounds and fuel: lines_from and count_lines take the length of the text as fuel, which is enough
-- because each line moves the cursor on; skip_spaces takes the distance to the end of the text. read_exact,
-- crc_range and unpack_bits take the number of bytes, of which every round reads one at least; a
-- binary search takes the length of its interval, the walk over the metadata the section's size.
-- The loops of the JSON reader take the length of what they read, with one more for the end of the
-- text in nested_end; every round uses up a character, and running out of fuel is an outcome of its
-- own, apart from the answer that there is no value. The digits of a number take the 20 places that the code's array has.
-- Lists have the capacities of the code (64 bookmarks, 64 verified packages, 96 library entries).
--
-- Not modelled: the readers of books and translations and the drawing of glyphs, the rotary
-- encoder, the battery and the folding of text to ASCII, the log of resets, the screens, the
-- drivers, Wi-Fi and Bluetooth, and the server that is vendored in firmware/lib/WebServer; the
-- desktop and mobile applications are other programs. The names in a directory of the card are a
-- parameter of rebuild, open_session_count, sweep_orphans and list_photos. How long a comparison
-- takes is not modelled.
pub mod Prelude
pub mod Qpk
pub mod Storage
pub mod Slots
pub mod RecordFile
pub mod Bookmarks
pub mod Verified
pub mod Input
pub mod TextPager
pub mod Protocol
pub mod Json
pub mod Net
pub mod Library
pub mod Upload
pub mod Witnesses
pub mod AliveTime
pub mod Progress
pub mod Provisioning
