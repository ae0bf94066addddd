-- ===== src/Proxy.antt =====
-- src/proxy.rs: the connection to an upstream proxy.
pub mod Target
pub mod Stream
pub mod Socks5
pub mod Http
pub mod Connect
mod Tests
