-- ===== src/Dhcp.antt =====
-- DHCP leases: backend/libs/protocol/src/dhcp.cpp.
pub mod Leases
pub mod Choice
mod Runs
