-- ===== src/Platform/Macos/Netcfg.antt =====
-- src/platform/macos/netcfg.rs: what is said to the kernel and to the command `route`, and what is
-- made of the answers.
use ace_tun.Base.{
  ℕ, ◌+◌, ◌-◌, ◌*◌, ◌^◌, ◌%◌, bit_or, Bool, false, ◌&&◌, ◌||◌, Option, none, some, List, [], ◌∷◌,
  ◌++◌, ltb, ◌==◌, if◌then◌else◌, ◌>>=◌, ◌>>◌, guard, not, is_none,
}
use ace_tun.Text.{Text, codes, trim, split_on, contains, to_ascii_lowercase}
use ace_tun.Text.Decimal.{decimal}
use ace_tun.Addr.{IpAddr, v4, v6, octets, is_ipv6}
use ace_tun.Platform.{PhysicalInterface}
use ace_tun.Platform.Linux.Process.{strip_prefix}

-- 8.8.8.8 and 2001:4860:4860::8888.
abbrev pub v4_probe : IpAddr
v4_probe = v4 0x0808_0808

abbrev pub v6_probe : IpAddr
v6_probe = v6 ((0x2001 * 2 ^ 32 + 0x4860_4860) * 2 ^ 80 + 0x8888)

-- A run of `/sbin/route`, if it could be started: its exit code, if it exited, and its output.
pub record Output : Type 0 where
  pub code : Option ℕ
  pub stdout : Text
  pub stderr : Text

unfoldable pub is_code : ℕ → Option ℕ → Bool
is_code n none = false
is_code n (some c) = c == n

-- The system's part: the command by its arguments, and the names and indices of interfaces.
pub record Shell : Type 0 where
  pub route : List Text → Option Output
  pub if_nametoindex : Text → ℕ
  pub if_indextoname : ℕ → Option Text
  pub show : IpAddr → Text

-- The first line that names the interface, without what stands around the name.
unfoldable pub interface_line : List Text → Option Text
unfolding trim strip_prefix
interface_line [] = none
interface_line (line ∷ lines) = elim (strip_prefix (codes "interface:") (trim line)) [
  | none ↦ interface_line lines
  | some name ↦ some (trim name)
]

unfoldable pub best_route_index : Shell → IpAddr → Option ℕ
unfolding interface_line split_on contains is_code
best_route_index sh dest = do
  output ← sh.route (codes "-n" ∷ codes "get" ∷ sh.show dest ∷ [])
  guard (is_code 0 output.code)
  name ← interface_line (split_on (λ c. c == 10) output.stdout)
  guard (not (contains 0 name))
  let index = sh.if_nametoindex name
  if index == 0 then none else some index

unfoldable pub discover_physical_interface : Shell → PhysicalInterface
unfolding best_route_index
discover_physical_interface sh = record {
  v4_index = best_route_index sh v4_probe;
  v6_index = best_route_index sh v6_probe;
}

-- `str::contains` of a text.
unfoldable pub contains_text : Text → Text → Bool
unfolding strip_prefix
contains_text needle [] = not (is_none (strip_prefix needle []))
contains_text needle (c ∷ t) = not (is_none (strip_prefix needle (c ∷ t))) || contains_text needle t

-- The handle of a route.
pub record RouteHandle : Type 0 where
  pub is_v6 : Bool
  pub dest : IpAddr
  pub prefix_len : ℕ

abbrev pub handle_of : IpAddr → ℕ → RouteHandle
handle_of dest prefix_len = record { is_v6 = is_ipv6 dest; dest = dest; prefix_len = prefix_len }

abbrev pub family_flag : Bool → Text
family_flag is_v6 = if is_v6 then codes "-inet6" else codes "-inet"

abbrev pub destination : Shell → IpAddr → ℕ → Text
destination sh dest prefix_len = sh.show dest ++ b'/' ∷ decimal prefix_len

-- What an answer to `route add` says.
pub data Added : Type 0 where
  added existed failed : Added

unfoldable pub read_add : Option Output → Added
unfolding is_code contains_text to_ascii_lowercase
read_add none = failed
read_add (some o) =
    if is_code 0 o.code
    then added
    else if is_code 1 o.code && contains_text (codes "file exists") (to_ascii_lowercase o.stderr)
    then existed
    else failed

unfoldable pub add_arguments : Shell → Text → IpAddr → ℕ → List Text
unfolding is_ipv6 decimal
add_arguments sh name dest prefix_len =
    codes "-n"
    ∷ codes "add"
    ∷ family_flag (is_ipv6 dest)
    ∷ destination sh dest prefix_len
    ∷ codes "-interface"
    ∷ name
    ∷ []

unfoldable pub add_route : Shell → ℕ → IpAddr → ℕ → Added
unfolding read_add add_arguments
add_route sh ifindex dest prefix_len = elim (sh.if_indextoname ifindex) [
  | none ↦ failed
  | some name ↦ read_add (sh.route (add_arguments sh name dest prefix_len))
]

-- Whether `delete_route` succeeds: also where the route is gone already.
unfoldable pub read_delete : Option Output → Bool
unfolding is_code contains_text to_ascii_lowercase
read_delete none = false
read_delete (some o) =
    is_code 0 o.code
    || (contains_text (codes "not in table") (to_ascii_lowercase o.stderr)
        || contains_text (codes "no such process") (to_ascii_lowercase o.stderr))

unfoldable pub delete_route : Shell → RouteHandle → Bool
unfolding read_delete decimal
delete_route sh handle = read_delete (
    sh.route (
      codes "-n"
      ∷ codes "delete"
      ∷ family_flag handle.is_v6
      ∷ destination sh handle.dest handle.prefix_len
      ∷ []))

-- `none` is the panic of a subtraction below zero.
unfoldable pub netmask_v4 : ℕ → Option ℕ
netmask_v4 prefix_len =
    if prefix_len == 0
    then some 0
    else if ltb 32 prefix_len
    then none
    else some ((2 ^ 32 - 1) * 2 ^ (32 - prefix_len) % 2 ^ 32)

unfoldable pub netmask_v6 : ℕ → Option ℕ
netmask_v6 prefix_len =
    if prefix_len == 0
    then some 0
    else if ltb 128 prefix_len
    then none
    else some ((2 ^ 128 - 1) * 2 ^ (128 - prefix_len) % 2 ^ 128)

-- A `sockaddr`: its length, its family, and the bytes of `sa_data` that are not zero.
pub record SockAddr : Type 0 where
  pub len : ℕ
  pub family : ℕ
  pub addr : List ℕ

unfoldable pub v4_sockaddr : ℕ → SockAddr
unfolding octets
v4_sockaddr addr = record { len = 16; family = 2; addr = octets 4 addr }

unfoldable pub v6_sockaddr : ℕ → SockAddr
unfolding octets
v6_sockaddr addr = record { len = 28; family = 30; addr = octets 16 addr }

-- `IfAliasRequest` and `In6AliasRequest`, with the interface's name.
pub data AliasRequest : Type 0 where
  alias_v4 : Text → SockAddr → SockAddr → SockAddr → AliasRequest
  -- The flags, and the two lifetimes.
  alias_v6 : Text → SockAddr → SockAddr → ℕ → ℕ → ℕ → AliasRequest

abbrev pub in6_iff_nodad : ℕ
in6_iff_nodad = 0x20

unfoldable pub alias_request : Text → IpAddr → ℕ → Option AliasRequest
unfolding v4_sockaddr v6_sockaddr netmask_v4 netmask_v6
alias_request name (v4 a) prefix_len = do
  mask ← netmask_v4 prefix_len
  some (alias_v4 name (v4_sockaddr a) (v4_sockaddr a) (v4_sockaddr mask))
alias_request name (v6 a) prefix_len = do
  mask ← netmask_v6 prefix_len
  some (alias_v6 name (v6_sockaddr a) (v6_sockaddr mask) in6_iff_nodad (2 ^ 32 - 1) (2 ^ 32 - 1))

-- The flags that `set_link_mtu_and_up` writes back: those it read, and `IFF_UP`.
unfoldable pub flags_up : ℕ → ℕ
flags_up flags = bit_or flags 1

-- The answers to the calls that configure an interface: whether a control socket of the family can
-- be made, and whether each `ioctl` succeeds; `SIOCGIFFLAGS` gives the flags.
pub record Ioctls : Type 0 where
  pub control_socket : Bool → Bool
  pub name_of : ℕ → Option Text
  pub add_alias : AliasRequest → Bool
  pub set_mtu : Text → ℕ → Bool
  pub get_flags : Text → Option ℕ
  pub set_flags : Text → ℕ → Bool

-- Whether the address was assigned. `none` is a panic.
unfoldable pub add_address : Ioctls → ℕ → IpAddr → ℕ → Option Bool
unfolding alias_request is_ipv6
add_address io ifindex addr prefix_len =
    if io.control_socket (is_ipv6 addr)
    then elim (io.name_of ifindex) [
      | none ↦ some false
      | some name ↦ do request ← alias_request name addr prefix_len; some (io.add_alias request)
    ]
    else some false

-- Whether the link is up.
unfoldable pub set_link_mtu_and_up : Ioctls → ℕ → ℕ → Bool
unfolding flags_up
set_link_mtu_and_up io ifindex mtu =
    if io.control_socket false
    then elim (io.name_of ifindex) [
      | none ↦ false
      | some name ↦
          if io.set_mtu name mtu
          then elim (io.get_flags name) [
            | none ↦ false
            | some flags ↦ io.set_flags name (flags_up flags)
          ]
          else false
    ]
    else false
