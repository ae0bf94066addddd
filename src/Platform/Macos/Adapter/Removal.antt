-- ===== src/Platform/Macos/Adapter/Removal.antt =====
-- src/platform/macos/adapter.rs: what the removal of the routes leaves of the routing table.
use ace_tun.Base.{
  ℕ, Bool, true, false, Option, none, some, List, [], ◌∷◌, ◌++◌, map, reverse, ◌≡◌, refl, sym, ap,
  ◌∙◌, if◌then◌else◌, arith, All, not, is_none, ◌⊎◌, append-nil, append_assoc, reverse-append, inl,
  inr,
}
use ace_tun.Addr.Laws.{ip_eq_iff}
use ace_tun.Platform.{PhysicalInterface}
use ace_tun.Error.{Error, Result, ok, err}
use ace_tun.Platform.Macos.Netcfg.{RouteHandle, Added, added, existed, failed}
use ace_tun.Platform.Macos.Adapter.{
  Route, NetHost, Routed, handle, names, planned_routes, install_route, install_all, delete_route,
  delete_all, remove_routes, prepare, settle, bare, route_device, with_device, create,
}

-- The destinations of the routes are pairwise different.
abbrev Apart : List Route → Type 0
Apart [] = Unit {0}
Apart (r ∷ rs) = All (λ (s : Route). names (handle s) r ≡ false) rs × Apart rs

Added-cases : (a : Added) → (a ≡ added) ⊎ ((a ≡ existed) ⊎ (a ≡ failed))
Added-cases added = inl refl
Added-cases existed = inr (inl refl)
Added-cases failed = inr (inr refl)

module _ (h : NetHost) where
  -- The routes for which `route add` said that they exist, up to the first failure.
  unfoldable pub present : List Route → List Route
  present [] = []
  present (r ∷ rs) = elim (h.add_route r) [
    | added ↦ present rs
    | existed ↦ r ∷ present rs
    | failed ↦ []
  ]

  -- All that were installed, up to the first failure.
  unfoldable installed : List Route → List Route
  installed [] = []
  installed (r ∷ rs) = elim (h.add_route r) [
    | added ↦ r ∷ installed rs
    | existed ↦ r ∷ installed rs
    | failed ↦ []
  ]

  -- The table without the entries of the handles, the last handle first.
  unfoldable pub less : List Route → List Route → List Route
  less [] table = table
  less (r ∷ rs) table = delete_route (handle r) (less rs table)

  present-All : (P : Route → Type 0) (rs : List Route) → All P rs → All P (present rs)
  unfolding present
  present-All P [] a = tt
  present-All P (r ∷ rs) a = elim (Added-cases (h.add_route r)) [
    | inl new ↦ rw (new, present) (present-All P rs a.1)
    | inr (inl old) ↦ rw (old, present) (a.0, present-All P rs a.1)
    | inr (inr no_route) ↦ rw (no_route, present) tt
  ]

  -- A newer entry for another destination stays on top.
  less-newer :
      (r : Route) (rs table : List Route)
      → All (λ (s : Route). names (handle s) r ≡ false) rs
      → less rs (r ∷ table) ≡ r ∷ less rs table
  unfolding less delete_route
  less-newer r [] table a = refl
  less-newer r (s ∷ rs) table (away, a) = rw (less-newer r rs table a, away)

  names_self : (r : Route) → names (handle r) r ≡ true
  unfolding names
  names_self r = ground (arith, ip_eq_iff r.dest r.dest)

  delete_top : (r : Route) (table : List Route) → delete_route (handle r) (r ∷ table) ≡ table
  unfolding delete_route
  delete_top r table = rw (names_self r)

  install_all-routes :
      (rs : List Route) (s : Routed)
      → (install_all h rs s).0.routes ≡ s.routes ++ map handle (installed rs)
  unfolding install_all install_route installed
  install_all-routes [] s = sym (append-nil s.routes)
  install_all-routes (r ∷ rs) s = elim (Added-cases (h.add_route r)) [
    | inl new ↦
        rw (new, install_all, install_route, installed)
          (install_all-routes rs _
            ∙ append_assoc s.routes (handle r ∷ []) (map handle (installed rs)))
    | inr (inl old) ↦
        rw (old, install_all, install_route, installed)
          (install_all-routes rs _
            ∙ append_assoc s.routes (handle r ∷ []) (map handle (installed rs)))
    | inr (inr no_route) ↦
        rw (no_route, install_all, install_route, installed) (sym (append-nil s.routes))
  ]

  less-install_all :
      (rs : List Route) (s : Routed)
      → Apart rs
      → less (installed rs) (install_all h rs s).0.table ≡ less (present rs) s.table
  unfolding install_all install_route installed less present
  less-install_all [] s a = refl
  less-install_all (r ∷ rs) s (away, a) = elim (Added-cases (h.add_route r)) [
    | inl new ↦
        let top = less-newer r (present rs) s.table (present-All _ rs away) in
        rw (new, install_all, install_route, installed, present, less)
          (ap (delete_route (handle r)) (less-install_all rs _ a ∙ top)
            ∙ delete_top r (less (present rs) s.table))
    | inr (inl old) ↦
        rw (old, install_all, install_route, installed, present, less)
          (ap (delete_route (handle r)) (less-install_all rs _ a))
    | inr (inr no_route) ↦ rw (no_route, install_all, install_route, installed, present) refl
  ]

delete_all-append :
    (h : NetHost) (hs ks : List RouteHandle) (table : List Route)
    → delete_all h (hs ++ ks) table ≡ delete_all h ks (delete_all h hs table)
unfolding delete_all
delete_all-append h [] ks table = refl
delete_all-append h (x ∷ hs) ks table =
    delete_all-append h hs ks (if h.deletes x then delete_route x table else table)

delete_all-reverse :
    (h : NetHost) (rs table : List Route)
    → ((x : RouteHandle) → h.deletes x ≡ true)
    → delete_all h (reverse (map handle rs)) table ≡ less h rs table
unfolding delete_all less
delete_all-reverse h [] table deleted = refl
delete_all-reverse h (r ∷ rs) table deleted =
    ap (λ hs. delete_all h hs table) (reverse-append (handle r ∷ []) (map handle rs))
    ∙ delete_all-append h (reverse (map handle rs)) (handle r ∷ []) table
    ∙ rw (deleted (handle r)) (ap (delete_route (handle r)) (delete_all-reverse h rs table deleted))

planned_routes-Apart :
    (ifindex : ℕ) (ipv6 : Bool) (a b : Option ℕ)
    → Apart (planned_routes ifindex ipv6 (record { v4_index = a; v6_index = b }))
unfolding planned_routes names
planned_routes-Apart ifindex true none none = ground arith
planned_routes-Apart ifindex true none (some b) = ground arith
planned_routes-Apart ifindex true (some a) none = ground arith
planned_routes-Apart ifindex true (some a) (some b) = ground arith
planned_routes-Apart ifindex false none b = ground arith
planned_routes-Apart ifindex false (some a) b = ground arith

-- The planned routes that were in the table already, when the device and its addresses were set up.
abbrev pub claimed_of : NetHost → List Route → Bool → List Route
claimed_of h rs true = []
claimed_of h rs false = present h rs

abbrev pub claimed_on : NetHost → Bool → PhysicalInterface → Result ℕ → List Route
claimed_on h ipv6 iface (err e) = []
claimed_on h ipv6 iface (ok ifindex) =
    claimed_of h (planned_routes ifindex ipv6 iface) (not (is_none (prepare h ipv6)))

abbrev pub claimed : NetHost → Bool → PhysicalInterface → List Route
claimed h ipv6 iface = claimed_on h ipv6 iface h.device

settle_table :
    (h : NetHost) (e : Routed × Bool)
    → (remove_routes h (settle h e).0).table ≡ delete_all h (reverse e.0.routes) e.0.table
unfolding settle remove_routes delete_all
settle_table h (s, true) = refl
settle_table h (s, false) = refl

settle-removal :
    (h : NetHost) (rs table : List Route)
    → ((x : RouteHandle) → h.deletes x ≡ true)
    → Apart rs
    → (remove_routes h (settle h (install_all h rs (bare table))).0).table
      ≡ less h (present h rs) table
settle-removal h rs table deleted apart =
    let end = install_all h rs (bare table) in
    let kept : delete_all h (reverse end.0.routes) end.0.table ≡ less h (present h rs) table =
      ap (λ hs. delete_all h (reverse hs) end.0.table) (install_all-routes h rs (bare table))
      ∙ delete_all-reverse h (installed h rs) end.0.table deleted
      ∙ less-install_all h rs (bare table) apart in
    settle_table h end ∙ kept

route_device-removal :
    (h : NetHost) (ifindex : ℕ) (ipv6 : Bool) (iface : PhysicalInterface) (table : List Route)
    (setup : Option Error)
    → ((x : RouteHandle) → h.deletes x ≡ true)
    → (remove_routes h (route_device h ifindex ipv6 iface table setup).0).table
      ≡ less h (claimed_of h (planned_routes ifindex ipv6 iface) (not (is_none setup))) table
unfolding route_device remove_routes delete_all less
route_device-removal h ifindex ipv6 iface table (some e) deleted = refl
route_device-removal h ifindex ipv6 iface table none deleted =
    settle-removal h (planned_routes ifindex ipv6 iface) table deleted
      (planned_routes-Apart ifindex ipv6 iface.v4_index iface.v6_index)

with_device-removal :
    (h : NetHost) (ipv6 : Bool) (iface : PhysicalInterface) (table : List Route) (device : Result ℕ)
    → ((x : RouteHandle) → h.deletes x ≡ true)
    → (remove_routes h (with_device h ipv6 iface table device).0).table
      ≡ less h (claimed_on h ipv6 iface device) table
unfolding with_device remove_routes delete_all less
with_device-removal h ipv6 iface table (err e) deleted = refl
with_device-removal h ipv6 iface table (ok ifindex) deleted =
    route_device-removal h ifindex ipv6 iface table (prepare h ipv6) deleted

-- If `route delete` never fails, the table after `create` and `remove_routes`, whether `create` succeeds or fails on the way: the
-- table before it, less an entry for each planned route of which `route add` had said that it exists,
-- on whatever interface that entry was; and nothing else is lost or left behind.
pub create-removal :
    (h : NetHost) (ipv6 : Bool) (iface : PhysicalInterface) (table : List Route)
    → ((x : RouteHandle) → h.deletes x ≡ true)
    → (remove_routes h (create h ipv6 iface table).0).table ≡ less h (claimed h ipv6 iface) table
unfolding create
create-removal h ipv6 iface table deleted = with_device-removal h ipv6 iface table h.device deleted
