-- ===== src/Platform/Linux/Adapter/Routes.antt =====
-- The routes that a tunnel adds (src/platform/linux/adapter.rs) are the routes that its end removes.
use mathlib.Core.List.{reverse-append}
use ace_tun.Base.{
  ℕ, Bool, true, false, Option, none, some, List, [], ◌∷◌, ◌++◌, ◌≡◌, ◌≢◌, ◌⊎◌, inl, inr, refl, sym,
  ap, ◌∙◌, arith, reverse,
}
use ace_tun.Addr.{ip_eq}
use ace_tun.Addr.Laws.{ip_eq_iff}
use ace_tun.Error.{Error, Result, ok, err}
use ace_tun.Platform.{PhysicalInterface}
use ace_tun.Platform.Linux.Adapter.{
  Route, route_eq, Answer, added, existed, failed, NetHost, Routed, planned_routes, install_route,
  install_all, delete_route, delete_all, remove_routes, prepare, settle, route_device, create,
}

route_eq_refl : (r : Route) → route_eq r r ≡ true
unfolding route_eq
route_eq_refl r =
    let same : ip_eq r.dest r.dest ≡ true = (ip_eq_iff r.dest r.dest).1 refl in
    rw (same) (ground arith)

-- The adapter's routes are the newest ones of the table.
abbrev Owns : List Route → Routed → Type 0
Owns table s = s.table ≡ reverse s.routes ++ table

-- What `create` must leave: routes whose removal restores the table, or the table as it was.
abbrev pub Leaves : NetHost → List Route → Routed × Result (Unit {0}) → Type 0
Leaves h table (s, ok u) = (remove_routes h s).table ≡ table
Leaves h table (s, err e) = s.table ≡ table

module _ (h : NetHost) (fresh : (r : Route) → h.add_route r ≢ existed)
    (refused : (r : Route) → h.add_route r ≡ failed → h.lingers r ≡ false)
    (deleted : (r : Route) → h.deletes r ≡ true) where
  delete_all-append : (rs table : List Route) → delete_all h rs (rs ++ table) ≡ table
  unfolding delete_all delete_route
  delete_all-append [] table = refl
  delete_all-append (r ∷ rs) table = rw (route_eq_refl r, deleted r) (delete_all-append rs table)

  remove_routes-table :
      (table : List Route) (s : Routed) → Owns table s → (remove_routes h s).table ≡ table
  unfolding remove_routes
  remove_routes-table table s owns =
      ap (delete_all h (reverse s.routes)) owns ∙ delete_all-append (reverse s.routes) table

  install_all-next :
      (r : Route) (rs : List Route) (s : Routed) (e : Routed × Bool)
      → install_route h r s ≡ e
      → install_all h (r ∷ rs) s ≡ elim e.1 [ false ↦ (e.0, false) | true ↦ install_all h rs e.0 ]
  unfolding install_all
  install_all-next r rs s e step =
      ap
        (λ (e : Routed × Bool). elim e.1 as (λ b. Routed × Bool) [
          | false ↦ (e.0, false)
          | true ↦ install_all h rs e.0
        ])
        step

  install_route-answer :
      (r : Route) (s : Routed)
      → (install_route h r s ≡ (record { routes = s.routes ++ r ∷ []; table = r ∷ s.table }, true))
        ⊎ (install_route h r s ≡ (s, false))
  unfolding install_route
  install_route-answer r s = answered (h.add_route r) refl
    where
      answered :
          (a : Answer)
          → h.add_route r ≡ a
          → (install_route h r s
              ≡ (record { routes = s.routes ++ r ∷ []; table = r ∷ s.table }, true))
            ⊎ (install_route h r s ≡ (s, false))
      answered added e = inl (rw (install_route, e) refl)
      answered existed e = absurd (fresh r e)
      answered failed e = inr (rw (install_route, e, refused r e) refl)

  install_all-Owns :
      (table rs : List Route) (s : Routed) → Owns table s → Owns table (install_all h rs s).0
  unfolding install_all
  install_all-Owns table [] s owns = owns
  install_all-Owns table (r ∷ rs) s owns = elim (install_route-answer r s) [
    | inr step ↦ rw (install_all-next r rs s (s, false) step) owns
    | inl step ↦
        let t : Routed = record { routes = s.routes ++ r ∷ []; table = r ∷ s.table } in
        rw (install_all-next r rs s (t, true) step) (
          install_all-Owns table rs t (
            ap (◌∷◌ r) owns
            ∙ ap (λ (t : List Route). t ++ table) (sym (reverse-append s.routes (r ∷ [])))))
  ]

  settle-Leaves :
      (table : List Route) (r : Routed × Bool) → Owns table r.0 → Leaves h table (settle h r)
  unfolding settle
  settle-Leaves table (s, true) owns = remove_routes-table table s owns
  settle-Leaves table (s, false) owns = remove_routes-table table s owns

  route_device-Leaves :
      (ifindex : ℕ) (ipv6 : Bool) (iface : PhysicalInterface) (table : List Route)
      (failure : Option Error)
      → Leaves h table (route_device h ifindex ipv6 iface table failure)
  unfolding route_device
  route_device-Leaves ifindex ipv6 iface table (some e) = refl
  route_device-Leaves ifindex ipv6 iface table none =
      settle-Leaves table
        (install_all h (planned_routes ifindex ipv6 iface) (record { routes = []; table = table }))
        (install_all-Owns table (planned_routes ifindex ipv6 iface)
          (record { routes = []; table = table }) refl)

  -- If the kernel never answers that a route was there already, has no route whose request failed,
  -- and carries out every deletion, then a failure of `create`, at whatever step, leaves the routing table as it was before, and after a success the removal of
  -- the adapter's routes restores it.
  pub create-Leaves :
      (ipv6 : Bool) (iface : PhysicalInterface) (table : List Route)
      → Leaves h table (create h ipv6 iface table)
  unfolding create
  create-Leaves ipv6 iface table = opened h.device
    where
      opened :
          (d : Result ℕ)
          → Leaves h table (elim d [
            | err e ↦ (record { routes = []; table = table }, err e)
            | ok ifindex ↦ route_device h ifindex ipv6 iface table (prepare h ifindex ipv6)
          ])
      opened (err e) = refl
      opened (ok ifindex) = route_device-Leaves ifindex ipv6 iface table (prepare h ifindex ipv6)
