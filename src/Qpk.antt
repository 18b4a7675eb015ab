-- ===== src/Qpk.antt =====
-- The package format: fields, checksum, files, records and the reader.
pub mod ByteOrder
pub mod Crc
pub mod File
pub mod Format
pub mod Records
pub mod Result
pub mod Reader
pub mod PackBits
