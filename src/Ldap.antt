-- ===== src/Ldap.antt =====
-- The LDAP server: libs/protocol/src/ldap.cpp.
pub mod Ber
pub mod Names
pub mod Objects
pub mod Members
pub mod Values
pub mod Sids
pub mod Matches
pub mod Filter
pub mod Requests
pub mod Controls
pub mod Entries
pub mod Search
pub mod Secrecy
pub mod Session
pub mod Writes
pub mod Changes
pub mod Domain
pub mod Locator
pub mod Server
mod Runs
