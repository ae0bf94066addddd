-- ===== src/Config/Kind.antt =====
-- src/config.rs: the transports of an upstream proxy.
pub data ProxyType : Type 0 where
  http socks5 : ProxyType
