-- ===== src/Platform.antt =====
-- src/platform/mod.rs: the tunnel's addresses and routes, and the physical interface.
pub mod Backend
pub mod Linux
pub mod Process
pub mod Macos
pub mod Windows
mod Tests
use ace_tun.Base.{
  ℕ, ◌*◌, ◌+◌, ◌^◌, Bool, true, false, ◌&&◌, Option, none, some, List, [], ◌∷◌, is_none,
}
use ace_tun.Addr.{IpAddr, v4, v6}

abbrev pub tun_ipv4 : ℕ
tun_ipv4 = ((10 * 256 + 63) * 256 + 7) * 256 + 1

abbrev pub tun_ipv4_prefix : ℕ
tun_ipv4_prefix = 24

abbrev pub tun_ipv6 : ℕ
tun_ipv6 = ((0xfd00 * 65536 + 0x0ace) * 65536 + 0x0007) * 2 ^ 80 + 1

abbrev pub tun_ipv6_prefix : ℕ
tun_ipv6_prefix = 64

abbrev pub tun_mtu : ℕ
tun_mtu = 1500

-- A network and its prefix length.
abbrev pub v4_split_default : List (ℕ × ℕ)
v4_split_default = (0, 1) ∷ (128 * 2 ^ 24, 1) ∷ []

abbrev pub v6_split_default : List (ℕ × ℕ)
v6_split_default = (0, 1) ∷ (0x8000 * 2 ^ 112, 1) ∷ []

pub record PhysicalInterface : Type 0 where
  pub v4_index : Option ℕ
  pub v6_index : Option ℕ

unfoldable pub no_interface : PhysicalInterface
no_interface = record { v4_index = none; v6_index = none }

unfoldable pub index_for : PhysicalInterface → IpAddr → Option ℕ
index_for i (v4 a) = i.v4_index
index_for i (v6 a) = i.v6_index

unfoldable pub is_empty : PhysicalInterface → Bool
is_empty i = is_none i.v4_index && is_none i.v6_index
