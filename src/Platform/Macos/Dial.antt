-- ===== src/Platform/Macos/Dial.antt =====
-- src/platform/macos/dial.rs: the options that pin a socket to an interface. A socket is what was
-- set on it, last first; `setsockopt` says which settings the kernel takes.
use ace_tun.Base.Int.{ℤ, signed32}
use ace_tun.Base.{ℕ, Bool, Option, none, some, List, ◌∷◌, if◌then◌else◌}
use ace_tun.Addr.{IpAddr, v4, v6, is_loopback}

pub data OptionName : Type 0 where
  ip_bound_if ipv6_bound_if so_sndbuf : OptionName

-- The level of an option goes with its name.
pub record Setting : Type 0 where
  pub name : OptionName
  pub value : ℤ

-- `none` is an error.
abbrev pub setsockopt : (Setting → Bool) → OptionName → ℤ → List Setting → Option (List Setting)
setsockopt takes name value socket =
    let setting : Setting = record { name = name; value = value } in
    if takes setting then some (setting ∷ socket) else none

abbrev bound_if : IpAddr → OptionName
bound_if (v4 a) = ip_bound_if
bound_if (v6 a) = ipv6_bound_if

unfoldable pub pin_socket : (Setting → Bool) → ℕ → IpAddr → List Setting → Option (List Setting)
unfolding is_loopback
pin_socket takes index dest socket =
    if is_loopback dest
    then some socket
    else setsockopt takes (bound_if dest) (signed32 index) socket

unfoldable pub set_send_buffer : (Setting → Bool) → ℕ → List Setting → Option (List Setting)
set_send_buffer takes bytes socket = setsockopt takes so_sndbuf (signed32 bytes) socket
