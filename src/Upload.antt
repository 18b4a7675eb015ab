-- ===== src/Upload.antt =====
-- firmware/include/net/upload_manager.h and firmware/wifi/upload_manager.cpp: resumable upload.
pub mod Meta
pub mod Session
pub mod Paths
pub mod Placed
pub mod Chunks
pub mod Requests
pub mod Resume
pub mod Finish
pub mod InLibrary
pub mod Install
pub mod Verify
pub mod Finished
