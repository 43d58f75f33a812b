-- ===== src/Vcs.antt =====
-- The repositories: backend/libs/vcs.
pub mod Names
pub mod Cgi
pub mod Http
mod Runs
