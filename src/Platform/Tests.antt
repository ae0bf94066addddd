-- ===== src/Platform/Tests.antt =====
-- The Linux adapter on concrete input, and its theorem applied to it.
use ace_tun.Base.{
  false, length, arith, ◌*◌, ◌^◌, true, false, none, some, [], ◌∷◌, ◌≡◌, refl, if◌then◌else◌,
}
use ace_tun.Addr.{v4, v6, is_multicast, is_ipv4}
use ace_tun.Error.{ok}
use ace_tun.Platform.{PhysicalInterface, index_for}
use ace_tun.Platform.Linux.Adapter.Coverage.{egress, expected, planned_routes-egress}
use ace_tun.Platform.Linux.Adapter.{
  Route, route_eq, added, existed, NetHost, create, remove_routes, planned_routes,
}

abbrev wired : PhysicalInterface
wired = record { v4_index = some 2; v6_index = none }

abbrev willing : NetHost
willing = record {
  device = ok 7;
  add_address = λ a p. true;
  link_up = λ m. true;
  add_route = λ r. added;
  lingers = λ r. false;
  deletes = λ r. true;
}

abbrev multicast : Route
multicast = record { ifindex = 2; dest = v4 (224 * 2 ^ 24); prefix = 4 }

-- The user has a route for multicast already.
unfoldable held : NetHost
unfolding route_eq
held = record willing { add_route = λ r. if route_eq r multicast then existed else added }

-- It is gone when the tunnel is.
loses_the_users_route : (remove_routes held (create held false wired (multicast ∷ [])).0).table ≡ []
unfolding remove_routes create held route_eq planned_routes
loses_the_users_route = refl

-- Where no deletion is carried out, the routes stay: two of each family, and that for multicast.
unfoldable keeping : NetHost
keeping = record willing { deletes = λ r. false }

refused_deletions_leave_routes :
    length (remove_routes keeping (create keeping true wired []).0).table ≡ 5
unfolding remove_routes create keeping planned_routes
refused_deletions_leave_routes = refl

-- 224.0.0.251 of mDNS, and 8.8.8.8.
planned_routes-egress_example :
    egress (planned_routes 7 true wired) (v4 0xe00000fb) ≡ expected 7 true wired (v4 0xe00000fb)
planned_routes-egress_example = planned_routes-egress 7 true wired (v4 0xe00000fb) (omega arith)

leaves_by :
    (expected 7 true wired (v4 0xe00000fb) ≡ some 2)
    × (expected 7 true wired (v4 0x08080808) ≡ some 7)
    × (expected 7 true wired (v6 1) ≡ some 7)
    × (expected 7 false wired (v6 1) ≡ none)
unfolding is_multicast is_ipv4 index_for
leaves_by = (refl, refl, refl, refl)
