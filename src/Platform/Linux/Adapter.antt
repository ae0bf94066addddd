-- ===== src/Platform/Linux/Adapter.antt =====
-- src/platform/linux/adapter.rs: `TunAdapter::create`, its routes and their removal. The kernel's
-- routing table is a list, newest first; what the kernel answers is a `NetHost`.
pub mod Routes
pub mod Coverage
use ace_tun.Base.{
  ℕ, ◌*◌, ◌^◌, Bool, true, false, ◌&&◌, not, Option, none, some, List, [], ◌∷◌, ◌++◌, map, reverse,
  ◌==◌, if◌then◌else◌,
}
use ace_tun.Text.{codes}
use ace_tun.Addr.{IpAddr, v4, v6, ip_eq}
use ace_tun.Error.{Error, Result, ok, err}
use ace_tun.Platform.{
  PhysicalInterface, tun_ipv4, tun_ipv4_prefix, tun_ipv6, tun_ipv6_prefix, tun_mtu,
  v4_split_default, v6_split_default,
}

-- `RouteHandle`.
pub record Route : Type 0 where
  pub ifindex : ℕ
  pub dest : IpAddr
  pub prefix : ℕ

unfoldable pub route_eq : Route → Route → Bool
unfolding ip_eq
route_eq r s = r.ifindex == s.ifindex && ip_eq r.dest s.dest && r.prefix == s.prefix

-- The answer to a request for a new route.
pub data Answer : Type 0 where
  added existed failed : Answer

-- The interface that `open_device` gives, and the answers to the requests.
pub record NetHost : Type 0 where
  pub device : Result ℕ
  pub add_address : IpAddr → ℕ → Bool
  pub link_up : ℕ → Bool
  pub add_route : Route → Answer
  -- Whether a route is in the table although its request failed, since the answer was lost.
  pub lingers : Route → Bool
  -- Whether a request to delete a route is carried out.
  pub deletes : Route → Bool

-- The adapter's handles in the order of their creation, and the kernel's table.
pub record Routed : Type 0 where
  pub routes : List Route
  pub table : List Route

unfoldable pub multicast_v4 : ℕ × ℕ
multicast_v4 = (224 * 2 ^ 24, 4)

unfoldable pub multicast_v6 : ℕ × ℕ
multicast_v6 = (0xff00 * 2 ^ 112, 8)

multicast_routes : Option ℕ → (ℕ → IpAddr) → ℕ × ℕ → List Route
multicast_routes none family net = []
multicast_routes (some physical) family (net, prefix) =
    record { ifindex = physical; dest = family net; prefix = prefix } ∷ []

split_routes : ℕ → (ℕ → IpAddr) → List (ℕ × ℕ) → List Route
split_routes ifindex family [] = []
split_routes ifindex family ((net, prefix) ∷ more) =
    record { ifindex = ifindex; dest = family net; prefix = prefix }
    ∷ split_routes ifindex family more

-- The routes in the order in which `create` installs them.
unfoldable pub planned_routes : ℕ → Bool → PhysicalInterface → List Route
unfolding multicast_routes multicast_v4 multicast_v6 split_routes
planned_routes ifindex ipv6 iface =
    multicast_routes iface.v4_index v4 multicast_v4
    ++ (if ipv6 then multicast_routes iface.v6_index v6 multicast_v6 else [])
    ++ split_routes ifindex v4 v4_split_default
    ++ (if ipv6 then split_routes ifindex v6 v6_split_default else [])

-- `netcfg::add_route`: a route that is already there is no failure.
-- The Boolean says whether it was installed.
unfoldable pub install_route : NetHost → Route → Routed → Routed × Bool
install_route h r s = elim (h.add_route r) [
  | added ↦ (record { routes = s.routes ++ r ∷ []; table = r ∷ s.table }, true)
  | existed ↦ (record { routes = s.routes ++ r ∷ []; table = s.table }, true)
  | failed ↦ (record s { table = if h.lingers r then r ∷ s.table else s.table }, false)
]

-- The state where the installation ends, and whether every route was installed.
unfoldable pub install_all : NetHost → List Route → Routed → Routed × Bool
unfolding install_route
install_all h [] s = (s, true)
install_all h (r ∷ more) s =
    let (t, installed) = install_route h r s in
    elim installed [ false ↦ (t, false) | true ↦ install_all h more t ]

-- `netcfg::delete_route`, where it is carried out: a route that is not there is no failure.
unfoldable pub delete_route : Route → List Route → List Route
unfolding route_eq
delete_route r [] = []
delete_route r (s ∷ table) =
    let rest = delete_route r table in if route_eq r s then table else s ∷ rest

-- A failure is only logged, and the route stays.
unfoldable pub delete_all : NetHost → List Route → List Route → List Route
unfolding delete_route
delete_all h [] table = table
delete_all h (r ∷ more) table =
    delete_all h more (if h.deletes r then delete_route r table else table)

unfoldable pub remove_routes : NetHost → Routed → Routed
unfolding delete_all
remove_routes h s = record { routes = []; table = delete_all h (reverse s.routes) s.table }

-- Addresses and link, in the order of the code: the operation that failed, if one did.
unfoldable pub prepare : NetHost → ℕ → Bool → Option Error
prepare h ifindex ipv6 =
    if not (h.add_address (v4 tun_ipv4) tun_ipv4_prefix)
    then some (Error.net_config (codes "add_address(v4)"))
    else if ipv6 && not (h.add_address (v6 tun_ipv6) tun_ipv6_prefix)
    then some (Error.net_config (codes "add_address(v6)"))
    else if not (h.link_up tun_mtu)
    then some (Error.net_config (codes "set_link_mtu_and_up"))
    else none

-- A failure drops the adapter, and that removes the routes installed so far.
unfoldable pub settle : NetHost → Routed × Bool → Routed × Result (Unit {0})
unfolding remove_routes
settle h (s, true) = (s, ok tt)
settle h (s, false) = (remove_routes h s, err (Error.net_config (codes "add_route")))

unfoldable pub route_device :
    NetHost → ℕ → Bool → PhysicalInterface → List Route → Option Error → Routed × Result (Unit {0})
unfolding install_all planned_routes settle
route_device h ifindex ipv6 iface table (some e) = (record { routes = []; table = table }, err e)
route_device h ifindex ipv6 iface table none =
    settle h
      (install_all h (planned_routes ifindex ipv6 iface) (record { routes = []; table = table }))

-- `TunAdapter::create`.
unfoldable pub create : NetHost → Bool → PhysicalInterface → List Route → Routed × Result (Unit {0})
unfolding route_device prepare
create h ipv6 iface table = elim h.device [
  | err e ↦ (record { routes = []; table = table }, err e)
  | ok ifindex ↦ route_device h ifindex ipv6 iface table (prepare h ifindex ipv6)
]
