-- ===== src/Netstack.antt =====
-- src/netstack.rs: what happens to each flow that the userland stack accepts.
pub mod Decide
pub mod Flow
mod Tests
