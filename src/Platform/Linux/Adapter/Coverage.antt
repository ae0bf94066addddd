-- ===== src/Platform/Linux/Adapter/Coverage.antt =====
-- Where the routes of the tunnel send a packet (src/platform/linux/adapter.rs, src/platform/mod.rs).
use ace_tun.Base.{
  ℕ, ◌-◌, ◌/◌, ◌^◌, ◌<◌, Bool, true, false, ◌||◌, Option, none, some, List, [], ◌∷◌, ◌≡◌, refl,
  arith, ltb, ◌==◌, if◌then◌else◌,
}
use ace_tun.Addr.{IpAddr, v4, v6, is_ipv4, is_multicast, IsValid}
use ace_tun.Platform.{PhysicalInterface, index_for}
use ace_tun.Platform.Linux.Adapter.{Route, planned_routes}

abbrev pub within : IpAddr → ℕ → IpAddr → Bool
within (v4 d) prefix (v4 a) = a / 2 ^ (32 - prefix) == d / 2 ^ (32 - prefix)
within (v6 d) prefix (v6 a) = a / 2 ^ (128 - prefix) == d / 2 ^ (128 - prefix)
within (v4 d) prefix (v6 a) = false
within (v6 d) prefix (v4 a) = false

-- Whether a route's network holds an address: they agree in the first bits.
abbrev pub covers : Route → IpAddr → Bool
covers r addr = within r.dest r.prefix addr

-- The route with the longer prefix.
abbrev pub longer : Route → Option Route → Route
longer r none = r
longer r (some s) = if ltb s.prefix r.prefix then r else s

-- The route that a kernel takes among these: of those that cover the address, the longest prefix.
abbrev pub route_to : IpAddr → List Route → Option Route
route_to addr [] = none
route_to addr (r ∷ rs) =
    let rest = route_to addr rs in if covers r addr then some (longer r rest) else rest

abbrev pub egress : List Route → IpAddr → Option ℕ
egress rs addr = elim (route_to addr rs) [ none ↦ none | some r ↦ some r.ifindex ]

abbrev pub or_tunnel : ℕ → Option ℕ → ℕ
or_tunnel ifindex none = ifindex
or_tunnel ifindex (some physical) = physical

-- Multicast leaves by the physical interface, if one is known, and everything else by the tunnel; an
-- IPv6 packet only where IPv6 is intercepted.
abbrev pub expected : ℕ → Bool → PhysicalInterface → IpAddr → Option ℕ
expected ifindex ipv6 iface addr =
    if is_ipv4 addr || ipv6
    then some (if is_multicast addr then or_tunnel ifindex (index_for iface addr) else ifindex)
    else none

egress_v4 :
    (ifindex : ℕ) (ipv6 : Bool) (i4 i6 : Option ℕ) (a : ℕ)
    → a < 2 ^ 32
    → egress (planned_routes ifindex ipv6 (record { v4_index = i4; v6_index = i6 })) (v4 a)
      ≡ expected ifindex ipv6 (record { v4_index = i4; v6_index = i6 }) (v4 a)
unfolding planned_routes is_multicast is_ipv4 index_for
egress_v4 ifindex true none none a h = ground arith
egress_v4 ifindex true none (some k) a h = ground arith
egress_v4 ifindex true (some j) none a h = ground arith
egress_v4 ifindex true (some j) (some k) a h = ground arith
egress_v4 ifindex false none i6 a h = ground arith
egress_v4 ifindex false (some j) i6 a h = ground arith

egress_v6 :
    (ifindex : ℕ) (ipv6 : Bool) (i4 i6 : Option ℕ) (a : ℕ)
    → a < 2 ^ 128
    → egress (planned_routes ifindex ipv6 (record { v4_index = i4; v6_index = i6 })) (v6 a)
      ≡ expected ifindex ipv6 (record { v4_index = i4; v6_index = i6 }) (v6 a)
unfolding planned_routes is_multicast is_ipv4 index_for
egress_v6 ifindex true none none a h = ground arith
egress_v6 ifindex true none (some k) a h = ground arith
egress_v6 ifindex true (some j) none a h = ground arith
egress_v6 ifindex true (some j) (some k) a h = ground arith
egress_v6 ifindex false none i6 a h = refl
egress_v6 ifindex false (some j) i6 a h = refl

-- By the longest prefix among the routes that `create` installs, every IPv4 address and, where IPv6
-- is intercepted, every IPv6 address is routed: a multicast address by the physical interface of its
-- family, if one is known, and every other address by the tunnel; without interception no route takes
-- an IPv6 address.
pub planned_routes-egress :
    (ifindex : ℕ) (ipv6 : Bool) (iface : PhysicalInterface) (addr : IpAddr)
    → IsValid addr
    → egress (planned_routes ifindex ipv6 iface) addr ≡ expected ifindex ipv6 iface addr
planned_routes-egress ifindex ipv6 iface (v4 a) h =
    egress_v4 ifindex ipv6 iface.v4_index iface.v6_index a h
planned_routes-egress ifindex ipv6 iface (v6 a) h =
    egress_v6 ifindex ipv6 iface.v4_index iface.v6_index a h
