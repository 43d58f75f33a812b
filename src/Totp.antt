-- ===== src/Totp.antt =====
-- One-time codes: backend/libs/security/src/totp.cpp.
pub mod Codes
pub mod Window
mod Runs
