-- ===== src/Dns.antt =====
-- The DNS library: backend/libs/protocol/include/nexus/protocol/dns.hpp and
-- backend/libs/protocol/src/dns.cpp, with the record types of
-- backend/libs/core/include/nexus/core/models.hpp.
pub mod Types
pub mod Wire
pub mod Update
pub mod Answer
pub mod Zones
pub mod Addresses
pub mod Owners
mod Runs
