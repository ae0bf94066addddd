-- ===== src/Platform/Macos/Adapter.antt =====
-- src/platform/macos/adapter.rs: `TunAdapter::create`, its routes and their removal. The routing table
-- is a list, newest first; `route delete` takes the newest entry for a destination and a prefix, on
-- whatever interface.
pub mod Removal
use ace_tun.Base.{
  ℕ, ◌*◌, ◌^◌, Bool, true, false, ◌&&◌, not, Option, none, some, List, [], ◌∷◌, ◌++◌, map, reverse,
  ◌==◌, if◌then◌else◌,
}
use ace_tun.Text.{codes}
use ace_tun.Addr.{IpAddr, v4, v6, ip_eq}
use ace_tun.Error.{Error, Result, ok, err}
use ace_tun.Platform.{
  PhysicalInterface, tun_ipv4, tun_ipv4_prefix, tun_ipv6, tun_ipv6_prefix, tun_mtu,
  v4_split_default, v6_split_default,
}
use ace_tun.Platform.Macos.Netcfg.{RouteHandle, handle_of, Added, added, existed, failed}

-- An entry of the table, and a route that is asked for.
pub record Route : Type 0 where
  pub ifindex : ℕ
  pub dest : IpAddr
  pub prefix : ℕ

-- The interface that `open_device` gives, and the answers of netcfg.rs.
pub record NetHost : Type 0 where
  pub device : Result ℕ
  pub add_address : IpAddr → ℕ → Bool
  pub link_up : ℕ → Bool
  pub add_route : Route → Added
  -- Whether `route delete` takes the entry that a handle names.
  pub deletes : RouteHandle → Bool

-- The handles in the order of their creation, and the table.
pub record Routed : Type 0 where
  pub routes : List RouteHandle
  pub table : List Route

abbrev pub handle : Route → RouteHandle
handle r = handle_of r.dest r.prefix

-- Whether an entry is the one that a handle names.
unfoldable pub names : RouteHandle → Route → Bool
unfolding ip_eq
names h r = ip_eq h.dest r.dest && h.prefix_len == r.prefix

abbrev pub multicast_v4 : ℕ × ℕ
multicast_v4 = (224 * 2 ^ 24, 4)

abbrev pub multicast_v6 : ℕ × ℕ
multicast_v6 = (0xff00 * 2 ^ 112, 8)

abbrev pub multicast_routes : Option ℕ → (ℕ → IpAddr) → ℕ × ℕ → List Route
multicast_routes none family net = []
multicast_routes (some physical) family (net, prefix) =
    record { ifindex = physical; dest = family net; prefix = prefix } ∷ []

abbrev pub split_routes : ℕ → (ℕ → IpAddr) → List (ℕ × ℕ) → List Route
split_routes ifindex family [] = []
split_routes ifindex family ((net, prefix) ∷ more) =
    record { ifindex = ifindex; dest = family net; prefix = prefix }
    ∷ split_routes ifindex family more

-- The routes in the order in which `create` installs them.
unfoldable pub planned_routes : ℕ → Bool → PhysicalInterface → List Route
planned_routes ifindex ipv6 iface =
    multicast_routes iface.v4_index v4 multicast_v4
    ++ ((if ipv6 then multicast_routes iface.v6_index v6 multicast_v6 else [])
        ++ (split_routes ifindex v4 v4_split_default
            ++ (if ipv6 then split_routes ifindex v6 v6_split_default else [])))

-- A route that is there already is no failure: its handle is kept like the others.
unfoldable pub install_route : NetHost → Route → Routed → Option Routed
install_route h r s = elim (h.add_route r) [
  | added ↦ some (record { routes = s.routes ++ handle r ∷ []; table = r ∷ s.table })
  | existed ↦ some (record { routes = s.routes ++ handle r ∷ []; table = s.table })
  | failed ↦ none
]

-- The state where the installation ends, and whether every route was installed.
unfoldable pub install_all : NetHost → List Route → Routed → Routed × Bool
install_all h [] s = (s, true)
install_all h (r ∷ more) s = elim (install_route h r s) [
  | none ↦ (s, false)
  | some t ↦ install_all h more t
]

unfoldable pub delete_route : RouteHandle → List Route → List Route
delete_route h [] = []
delete_route h (r ∷ table) =
    let rest = delete_route h table in if names h r then table else r ∷ rest

-- A failure is only logged, and the entry stays.
unfoldable pub delete_all : NetHost → List RouteHandle → List Route → List Route
delete_all h [] table = table
delete_all h (r ∷ more) table =
    delete_all h more (if h.deletes r then delete_route r table else table)

-- In reverse order of their creation.
unfoldable pub remove_routes : NetHost → Routed → Routed
remove_routes h s = record { routes = []; table = delete_all h (reverse s.routes) s.table }

unfoldable pub prepare : NetHost → Bool → Option Error
prepare h ipv6 =
    if not (h.add_address (v4 tun_ipv4) tun_ipv4_prefix)
    then some (Error.net_config (codes "add_address(v4)"))
    else if ipv6 && not (h.add_address (v6 tun_ipv6) tun_ipv6_prefix)
    then some (Error.net_config (codes "add_address(v6)"))
    else if not (h.link_up tun_mtu)
    then some (Error.net_config (codes "set_link_mtu_and_up"))
    else none

-- A failure drops the adapter, and that removes the routes installed so far.
unfoldable pub settle : NetHost → Routed × Bool → Routed × Result (Unit {0})
settle h (s, true) = (s, ok tt)
settle h (s, false) = (remove_routes h s, err (Error.net_config (codes "add_route")))

abbrev pub bare : List Route → Routed
bare table = record { routes = []; table = table }

unfoldable pub route_device :
    NetHost → ℕ → Bool → PhysicalInterface → List Route → Option Error → Routed × Result (Unit {0})
route_device h ifindex ipv6 iface table (some e) = (bare table, err e)
route_device h ifindex ipv6 iface table none =
    settle h (install_all h (planned_routes ifindex ipv6 iface) (bare table))

unfoldable pub with_device :
    NetHost → Bool → PhysicalInterface → List Route → Result ℕ → Routed × Result (Unit {0})
with_device h ipv6 iface table (err e) = (bare table, err e)
with_device h ipv6 iface table (ok ifindex) =
    route_device h ifindex ipv6 iface table (prepare h ipv6)

-- `TunAdapter::create`.
unfoldable pub create : NetHost → Bool → PhysicalInterface → List Route → Routed × Result (Unit {0})
unfolding with_device
create h ipv6 iface table = with_device h ipv6 iface table h.device
