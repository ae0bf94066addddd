-- ===== src/Platform/Macos.antt =====
-- src/platform/macos: the macOS backend.
pub mod Netcfg
pub mod Adapter
pub mod Process
pub mod Device
pub mod Dial
mod Tests
