-- ===== src/Smb.antt =====
-- The SMB server: libs/protocol/src/smb.cpp.
pub mod Requests
pub mod Pipes
pub mod Overlay
mod Runs
