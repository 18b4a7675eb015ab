-- ===== src/Witnesses.antt =====
-- The theorems at concrete inputs, and tests of the definitions.
pub mod Lists
pub mod Uploads
pub mod Small
pub mod Library
pub mod Texts
pub mod Packages
pub mod Installs
pub mod Progress
pub mod Json
pub mod Net
