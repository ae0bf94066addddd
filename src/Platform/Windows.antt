-- ===== src/Platform/Windows.antt =====
-- src/platform/windows: the Windows backend.
pub mod Netcfg
pub mod Adapter
pub mod Process
pub mod Dial
mod Tests
