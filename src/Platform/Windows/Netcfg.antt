-- ===== src/Platform/Windows/Netcfg.antt =====
-- src/platform/windows/netcfg.rs: the rows that are handed to the IP Helper functions, and what is
-- made of their codes. `Net` is the system's network configuration; what the system's functions do
-- with it is a `System`.
use ace_tun.Base.{ℕ, ◌-◌, ◌^◌, ◌*◌, ◌+◌, Bool, true, false, Option, none, some, List, if◌then◌else◌}
use ace_tun.Base.Words.{from_le}
use ace_tun.Addr.{IpAddr, v4, v6, octets}
use ace_tun.Platform.{PhysicalInterface}

-- `WIN32_ERROR`, as far as the code tells the codes apart.
pub data Code : Type 0 where
  no_error object_already_exists other : Code

-- The function `ok` of the source.
abbrev pub succeeded : Code → Bool
succeeded no_error = true
succeeded object_already_exists = false
succeeded other = false

abbrev pub ok_idempotent : Code → Bool
ok_idempotent object_already_exists = true
ok_idempotent no_error = succeeded no_error
ok_idempotent other = succeeded other

pub data Family : Type 0 where
  inet inet6 : Family

-- The arm of the union that is written: port and address as a word, or port, flow and bytes.
pub data SockaddrInet : Type 0 where
  ipv4 : ℕ → ℕ → SockaddrInet
  ipv6 : ℕ → ℕ → List ℕ → SockaddrInet

unfoldable pub sockaddr_inet : IpAddr → SockaddrInet
unfolding octets from_le
sockaddr_inet (v4 a) = ipv4 0 (from_le (octets 4 a))
sockaddr_inet (v6 a) = ipv6 0 0 (octets 16 a)

-- `MIB_UNICASTIPADDRESS_ROW`, whose other fields say that the address is set by hand.
pub record UnicastRow : Type 0 where
  pub luid : ℕ
  pub address : SockaddrInet
  pub on_link_prefix_length : ℕ
  pub dad_preferred : Bool
  pub lifetime : ℕ

-- `MIB_IPFORWARD_ROW2`, which a `RouteHandle` holds.
pub record ForwardRow : Type 0 where
  pub luid : ℕ
  pub destination : SockaddrInet
  pub prefix_length : ℕ
  pub next_hop : SockaddrInet
  pub metric : ℕ

-- `MIB_IPINTERFACE_ROW`; `rest` is what the code leaves as the system filled it in.
pub record InterfaceRow : Type 0 where
  pub family : Family
  pub luid : ℕ
  pub use_automatic_metric : Bool
  pub metric : ℕ
  pub site_prefix_length : ℕ
  pub rest : ℕ

-- 8.8.8.8 and 2001:4860:4860::8888.
abbrev pub v4_probe : IpAddr
v4_probe = v4 0x0808_0808

abbrev pub v6_probe : IpAddr
v6_probe = v6 ((0x2001 * 2 ^ 32 + 0x4860_4860) * 2 ^ 80 + 0x8888)

-- The functions of Windows and of WinTun, by their effect and their answer. An adapter is its LUID,
-- and `close` is what happens when its last handle closes.
pub record System (Net : Type 0) : Type 0 where
  pub best_route : SockaddrInet → Net → Option ℕ
  pub create_unicast : UnicastRow → Net → Net × Code
  pub create_forward : ForwardRow → Net → Net × Code
  pub delete_forward : ForwardRow → Net → Net × Code
  pub get_interface : Family → ℕ → Net → Option InterfaceRow
  pub set_interface : InterfaceRow → Net → Net × Code
  pub create_adapter : Net → Option (ℕ × Net)
  pub set_mtu : ℕ → ℕ → Net → Net × Bool
  pub start_session : ℕ → ℕ → Net → Net × Bool
  pub shutdown_session : ℕ → Net → Net
  pub close : ℕ → Net → Net

unfoldable pub address_row : ℕ → IpAddr → ℕ → UnicastRow
unfolding sockaddr_inet
address_row luid addr prefix_len = record {
  luid = luid;
  address = sockaddr_inet addr;
  on_link_prefix_length = prefix_len;
  dad_preferred = true;
  lifetime = 2 ^ 32 - 1;
}

-- The unspecified address of the family.
abbrev pub on_link : IpAddr → IpAddr
on_link (v4 a) = v4 0
on_link (v6 a) = v6 0

unfoldable pub route_row : ℕ → IpAddr → ℕ → ℕ → ForwardRow
unfolding sockaddr_inet
route_row luid dest prefix_len metric = record {
  luid = luid;
  destination = sockaddr_inet dest;
  prefix_length = prefix_len;
  next_hop = sockaddr_inet (on_link dest);
  metric = metric;
}

abbrev pub site_prefix : Family → ℕ → ℕ
site_prefix inet old = 0
site_prefix inet6 old = old

-- What is written back: the keys of the look-up, and the row that the system filled in.
unfoldable pub metric_row : Family → ℕ → ℕ → InterfaceRow → InterfaceRow
metric_row family luid metric row = record row {
  family = family;
  luid = luid;
  use_automatic_metric = false;
  metric = metric;
  site_prefix_length = site_prefix family row.site_prefix_length;
}

module _ {Net : Type 0} (sys : System Net) where
  unfoldable pub best_route_index : IpAddr → Net → Option ℕ
  unfolding sockaddr_inet
  best_route_index dest net = sys.best_route (sockaddr_inet dest) net

  unfoldable pub add_address : ℕ → IpAddr → ℕ → Net → Net × Bool
  unfolding address_row
  add_address luid addr prefix_len net =
      let (after, code) = sys.create_unicast (address_row luid addr prefix_len) net in
      (after, ok_idempotent code)

  unfoldable pub add_route : ℕ → IpAddr → ℕ → ℕ → Net → Net × Option ForwardRow
  unfolding route_row
  add_route luid dest prefix_len metric net =
      let row = route_row luid dest prefix_len metric in
      let (after, code) = sys.create_forward row net in
      (after, if ok_idempotent code then some row else none)

  unfoldable pub delete_route : ForwardRow → Net → Net × Bool
  delete_route handle net =
      let (after, code) = sys.delete_forward handle net in (after, succeeded code)

  unfoldable pub set_interface_metric : ℕ → Family → ℕ → Net → Net × Bool
  unfolding metric_row
  set_interface_metric luid family metric net = elim (sys.get_interface family luid net) [
    | none ↦ (net, false)
    | some row ↦
        let (after, code) = sys.set_interface (metric_row family luid metric row) net in
        (after, succeeded code)
  ]

  unfoldable pub discover_physical_interface : Net → PhysicalInterface
  unfolding best_route_index
  discover_physical_interface net = record {
    v4_index = best_route_index v4_probe net;
    v6_index = best_route_index v6_probe net;
  }
