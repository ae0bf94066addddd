-- ===== src/Addr/Laws.antt =====
-- Laws of addresses.
use ace_tun.Base.{ℕ, ◌^◌, ◌<◌, true, ◌≡◌, ◌↔◌, arith}
use ace_tun.Addr.{IpAddr, v4, v6, ip_eq, octets, from_octets}

pub ip_eq_iff : (a b : IpAddr) → (ip_eq a b ≡ true) ↔ (a ≡ b)
unfolding ip_eq
ip_eq_iff (v4 a) (v4 b) = ground arith
ip_eq_iff (v6 a) (v6 b) = ground arith
ip_eq_iff (v4 a) (v6 b) = ground arith
ip_eq_iff (v6 a) (v4 b) = ground arith

-- The four octets of an IPv4 address give it back.
pub from_octets-octets_v4 : (a : ℕ) → a < 2 ^ 32 → from_octets 0 (octets 4 a) ≡ a
unfolding from_octets octets
from_octets-octets_v4 a h = omega arith

-- So do the sixteen of an IPv6 address, and the two bytes of a port.
pub from_octets-octets_v6 : (a : ℕ) → a < 2 ^ 128 → from_octets 0 (octets 16 a) ≡ a
unfolding from_octets octets
from_octets-octets_v6 a h = omega arith

pub from_octets-octets_port : (p : ℕ) → p < 65536 → from_octets 0 (octets 2 p) ≡ p
unfolding from_octets octets
from_octets-octets_port p h = omega arith
