-- ===== src/Net.antt =====
-- Small parts of firmware/wifi and firmware/include/net that judge what arrives over the network.
-- Texts are lists of bytes without their NUL, and a null pointer is not modelled.
pub mod Base64
pub mod Auth
pub mod Allowed
pub mod PhotoStore
