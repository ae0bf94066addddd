-- ===== src/Proxy/Target.antt =====
-- src/proxy.rs: the destination of a proxied connection.
use ace_tun.Base.{ℕ}
use ace_tun.Text.{Text}
use ace_tun.Addr.{IpAddr}

pub data Target : Type 0 where
  ip : IpAddr → ℕ → Target
  domain : Text → ℕ → Target

unfoldable pub port : Target → ℕ
port (ip a p) = p
port (domain h p) = p
