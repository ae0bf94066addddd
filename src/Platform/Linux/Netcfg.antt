-- ===== src/Platform/Linux/Netcfg.antt =====
-- src/platform/linux/netcfg.rs: the requests to the kernel and what is made of its answers. The
-- encoding of a message is left to the crates netlink-packet-core and netlink-packet-route: a request
-- is the fields that the code sets. `Kernel` is the kernel's side of a socket, and which `ErrorKind`
-- the standard library gives an error code.
use ace_tun.Base.{ℕ, Bool, true, Option, none, some, List, [], ◌∷◌, if◌then◌else◌}
use ace_tun.Addr.{IpAddr, v4, v6, is_ipv4, is_ipv6}
use ace_tun.Platform.{PhysicalInterface}
use ace_tun.Platform.Linux.Netlink.{
  Ack, acked, refused, invalid, timed_out, Attribute, Deserialize, wait_for_ack, route_loop,
}

pub data AddressFamily : Type 0 where
  inet inet6 unspec : AddressFamily

unfoldable pub family : IpAddr → AddressFamily
family (v4 a) = inet
family (v6 a) = inet6

-- `AddressMessage`: its local address is set for IPv4 only.
pub record AddressMessage : Type 0 where
  pub family : AddressFamily
  pub prefix_len : ℕ
  pub index : ℕ
  pub nodad : Bool
  pub address : IpAddr
  pub local_address : Option IpAddr

-- `LinkMessage`, whose change mask and flags are `Up` or nothing.
pub record LinkMessage : Type 0 where
  pub family : AddressFamily
  pub index : ℕ
  pub up : Bool
  pub change_up : Bool
  pub mtu : ℕ

-- `RouteMessage`: a unicast route of scope link in the main table.
pub record RouteMessage : Type 0 where
  pub family : AddressFamily
  pub prefix_len : ℕ
  pub dest : IpAddr
  pub oif : ℕ

pub data Inner : Type 0 where
  new_address : AddressMessage → Inner
  new_link : LinkMessage → Inner
  new_route : RouteMessage → Inner
  del_route : RouteMessage → Inner
  -- A look-up of the route to an address.
  get_route : AddressFamily → IpAddr → Inner

pub data Flag : Type 0 where
  request ack create excl : Flag

pub record Request : Type 0 where
  pub sequence : ℕ
  pub flags : List Flag
  pub inner : Inner

-- `io::ErrorKind`, as far as the code tells the kinds apart.
pub data Kind : Type 0 where
  already_exists not_found not_connected permission_denied : Kind
  other_kind : Kind

-- `io::Result<()>`.
pub data Io : Type 0 where
  done : Io
  failed : Kind → Io

pub record Kernel : Type 0 where
  -- The error of opening, binding and timing a socket, if there is one.
  pub opens : Io
  -- Whether a request can be sent, and the datagrams that come then.
  pub sends : Request → Io
  pub replies : Request → List (List ℕ)
  -- The parser of a datagram; of a route message it gives the attributes.
  pub deserialize : Deserialize (List Attribute)
  pub kind_of : ℕ → Kind
  -- Whether a change that is requested is made, whatever becomes of the answer.
  pub makes : Inner → Bool

abbrev pub of_ack : Kernel → Ack → Io
of_ack k acked = done
of_ack k (refused code) = failed (k.kind_of code)
of_ack k invalid = failed other_kind
of_ack k timed_out = failed other_kind

abbrev pub then_io : Io → Io → Io
then_io done next = next
then_io (failed kind) next = failed kind

-- `request_ack` on a new socket, whose first sequence number is 0.
unfoldable pub request_ack : Kernel → Inner → List Flag → Io
unfolding wait_for_ack
request_ack k inner extra_flags =
    let message : Request = record {
      sequence = 0;
      flags = request ∷ ack ∷ extra_flags;
      inner = inner;
    } in
    then_io k.opens
      (then_io (k.sends message) (of_ack k (wait_for_ack k.deserialize 0 (k.replies message))))

abbrev pub idempotent_already_exists : Io → Io
idempotent_already_exists (failed already_exists) = done
idempotent_already_exists (failed kind) = failed kind
idempotent_already_exists done = done

unfoldable pub address_message : ℕ → IpAddr → ℕ → AddressMessage
unfolding family is_ipv4 is_ipv6
address_message ifindex addr prefix_len = record {
  family = family addr;
  prefix_len = prefix_len;
  index = ifindex;
  nodad = is_ipv6 addr;
  address = addr;
  local_address = if is_ipv4 addr then some addr else none;
}

unfoldable pub add_address : Kernel → ℕ → IpAddr → ℕ → Io
unfolding request_ack address_message
add_address k ifindex addr prefix_len =
    idempotent_already_exists
      (request_ack k (new_address (address_message ifindex addr prefix_len)) (create ∷ excl ∷ []))

abbrev pub link_message : ℕ → ℕ → LinkMessage
link_message ifindex mtu = record {
  family = unspec;
  index = ifindex;
  up = true;
  change_up = true;
  mtu = mtu;
}

unfoldable pub set_link_mtu_and_up : Kernel → ℕ → ℕ → Io
unfolding request_ack
set_link_mtu_and_up k ifindex mtu = request_ack k (new_link (link_message ifindex mtu)) []

pub record RouteHandle : Type 0 where
  pub family : AddressFamily
  pub dest : IpAddr
  pub prefix_len : ℕ
  pub ifindex : ℕ

unfoldable pub route_message : AddressFamily → ℕ → ℕ → IpAddr → RouteMessage
route_message af prefix_len ifindex dest = record {
  family = af;
  prefix_len = prefix_len;
  dest = dest;
  oif = ifindex;
}

unfoldable pub handle_of : ℕ → IpAddr → ℕ → RouteHandle
unfolding family
handle_of ifindex dest prefix_len = record {
  family = family dest;
  dest = dest;
  prefix_len = prefix_len;
  ifindex = ifindex;
}

-- The answer to the request for a route, before an existing one is taken for success.
unfoldable pub ask_route : Kernel → ℕ → IpAddr → ℕ → Io
unfolding request_ack route_message family
ask_route k ifindex dest prefix_len =
    request_ack k (new_route (route_message (family dest) prefix_len ifindex dest))
      (create ∷ excl ∷ [])

abbrev pub handle_if : Io → RouteHandle → Option RouteHandle
handle_if done handle = some handle
handle_if (failed kind) handle = none

unfoldable pub add_route : Kernel → ℕ → IpAddr → ℕ → Option RouteHandle
unfolding ask_route handle_of
add_route k ifindex dest prefix_len =
    handle_if (idempotent_already_exists (ask_route k ifindex dest prefix_len))
      (handle_of ifindex dest prefix_len)

abbrev pub forgive_missing : Io → Io
forgive_missing (failed not_found) = done
forgive_missing (failed not_connected) = done
forgive_missing (failed kind) = failed kind
forgive_missing done = done

unfoldable pub delete_route : Kernel → RouteHandle → Io
unfolding request_ack route_message
delete_route k handle = forgive_missing (
    request_ack k
      (del_route (route_message handle.family handle.prefix_len handle.ifindex handle.dest)) [])

unfoldable pub best_route_index : Kernel → IpAddr → Option ℕ
unfolding family route_loop
best_route_index k dest =
    let message : Request = record {
      sequence = 0;
      flags = request ∷ [];
      inner = get_route (family dest) dest;
    } in
    elim (then_io k.opens (k.sends message)) [
      | done ↦ route_loop k.deserialize 0 [] (k.replies message)
      | failed kind ↦ none
    ]

-- 8.8.8.8 and 2001:4860:4860::8888.
abbrev pub v4_probe : IpAddr
v4_probe = v4 0x0808_0808

abbrev pub v6_probe : IpAddr
v6_probe = v6 0x2001_4860_4860_0000_0000_0000_0000_8888

unfoldable pub discover_physical_interface : Kernel → PhysicalInterface
unfolding best_route_index
discover_physical_interface k = record {
  v4_index = best_route_index k v4_probe;
  v6_index = best_route_index k v6_probe;
}
