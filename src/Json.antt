-- ===== src/Json.antt =====
-- firmware/include/net/json.h and firmware/wifi/json.cpp: the JSON that the device writes and reads.
-- Texts are lists of bytes without their NUL.
pub mod Writer
pub mod Reader
pub mod Values
pub mod Written
pub mod Refines
pub mod Escapes
pub mod Digits
pub mod Fields
pub mod Spans
pub mod Find
pub mod ReadBack
pub mod Bounds
pub mod Fuel
