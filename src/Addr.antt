-- ===== src/Addr.antt =====
-- `std::net`: addresses as the numbers that `u32::from` and `u128::from` give, and the parsers of
-- `Ipv4Addr::from_str` and `Ipv6Addr::from_str`.
pub mod Ipv4
pub mod Ipv6
pub mod Laws
use ace_tun.Base.{
  ℕ, zero, suc, ◌+◌, ◌-◌, ◌*◌, ◌/◌, ◌%◌, ◌^◌, Bool, true, false, ◌||◌, ◌&&◌, ◌<◌, Option, none,
  List, [], ◌∷◌, leb, ◌==◌,
}

pub data IpAddr : Type 0 where
  v4 : ℕ → IpAddr
  v6 : ℕ → IpAddr

-- `==` on `IpAddr`.
unfoldable pub ip_eq : IpAddr → IpAddr → Bool
ip_eq (v4 a) (v4 b) = a == b
ip_eq (v6 a) (v6 b) = a == b
ip_eq (v4 a) (v6 b) = false
ip_eq (v6 a) (v4 b) = false

unfoldable pub is_ipv4 : IpAddr → Bool
is_ipv4 (v4 a) = true
is_ipv4 (v6 a) = false

unfoldable pub is_ipv6 : IpAddr → Bool
is_ipv6 (v4 a) = false
is_ipv6 (v6 a) = true

-- The octets of a number of so many bytes, most significant first.
unfoldable pub octets : ℕ → ℕ → List ℕ
octets zero n = []
octets (suc k) n = (n / 256 ^ k) % 256 ∷ octets k n

abbrev pub ipv4_octets : ℕ → List ℕ
ipv4_octets n = octets 4 n

unfoldable pub from_octets : ℕ → List ℕ → ℕ
from_octets acc [] = acc
from_octets acc (b ∷ bs) = from_octets (acc * 256 + b) bs

-- 127.0.0.0/8, and ::1.
unfoldable pub is_loopback : IpAddr → Bool
is_loopback (v4 a) = a / 2 ^ 24 == 127
is_loopback (v6 a) = a == 1

-- 224.0.0.0/4, and ff00::/8.
unfoldable pub is_multicast : IpAddr → Bool
is_multicast (v4 a) = leb 224 (a / 2 ^ 24) && leb (a / 2 ^ 24) 239
is_multicast (v6 a) = a / 2 ^ 120 == 255

-- `Ipv4Addr::is_broadcast`.
unfoldable pub is_broadcast : ℕ → Bool
is_broadcast a = a == 2 ^ 32 - 1

unfoldable pub is_unspecified : IpAddr → Bool
is_unspecified (v4 a) = a == 0
is_unspecified (v6 a) = a == 0

-- The numbers that an address of each family can hold.
abbrev pub IsValid : IpAddr → Type 0
IsValid (v4 a) = a < 2 ^ 32
IsValid (v6 a) = a < 2 ^ 128

pub record SocketAddr : Type 0 where
  pub ip : IpAddr
  pub port : ℕ
