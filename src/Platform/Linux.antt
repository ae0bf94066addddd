-- ===== src/Platform/Linux.antt =====
-- src/platform/linux: the Linux backend.
pub mod Adapter
pub mod Netlink
pub mod Netcfg
pub mod Device
pub mod Process
mod Tests
