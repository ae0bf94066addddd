-- ===== src/Platform/Windows/Dial.antt =====
-- src/platform/windows/dial.rs: the options that pin a socket to an interface, on a host that keeps
-- the least significant byte first. A socket is what was set on it, last first; `setsockopt` says
-- which settings the system takes.
use ace_tun.Base.Words.{from_le}
use ace_tun.Base.{ℕ, ◌/◌, ◌%◌, ◌^◌, Bool, Option, none, some, List, [], ◌∷◌, if◌then◌else◌}
use ace_tun.Addr.{IpAddr, is_ipv6}

pub data OptionName : Type 0 where
  ip_unicast_if ipv6_unicast_if so_sndbuf : OptionName

-- The level of an option goes with its name; the value is the word that its bytes make.
pub record Setting : Type 0 where
  pub name : OptionName
  pub value : ℕ

-- `none` is an error.
abbrev pub setsockopt : (Setting → Bool) → OptionName → ℕ → List Setting → Option (List Setting)
setsockopt takes name value socket =
    let setting : Setting = record { name = name; value = value } in
    if takes setting then some (setting ∷ socket) else none

-- `to_be`: the bytes of the word in the other order.
unfoldable pub to_be : ℕ → ℕ
to_be w = from_le (w / 2 ^ 24 % 256 ∷ w / 2 ^ 16 % 256 ∷ w / 2 ^ 8 % 256 ∷ w % 256 ∷ [])

unfoldable pub unicast_if_value : ℕ → Bool → ℕ
unicast_if_value index is_ipv6 = if is_ipv6 then index else to_be index

unfoldable pub pin_socket : (Setting → Bool) → ℕ → IpAddr → List Setting → Option (List Setting)
unfolding is_ipv6
pin_socket takes index dest socket =
    setsockopt takes (if is_ipv6 dest then ipv6_unicast_if else ip_unicast_if)
      (unicast_if_value index (is_ipv6 dest)) socket

unfoldable pub set_send_buffer : (Setting → Bool) → ℕ → List Setting → Option (List Setting)
set_send_buffer takes bytes socket = setsockopt takes so_sndbuf bytes socket
