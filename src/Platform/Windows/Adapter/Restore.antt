-- ===== src/Platform/Windows/Adapter/Restore.antt =====
-- The end of a WinTun adapter (src/platform/windows/adapter.rs) leaves the network as it was.
use ace_tun.Base.{
  ℕ, Bool, true, false, some, List, [], ◌∷◌, ◌++◌, ◌≡◌, refl, ap, subst, ◌∙◌, inl, inr, Bool-cases,
  Option-cases, if◌then◌else◌,
}
use ace_tun.Text.{codes}
use ace_tun.Addr.{IpAddr, v4, v6}
use ace_tun.Error.{Error, Result, ok, err}
use ace_tun.Platform.{tun_mtu, tun_ipv4, tun_ipv6, tun_ipv4_prefix, tun_ipv6_prefix}
use ace_tun.Platform.Windows.Netcfg.{
  UnicastRow, ForwardRow, InterfaceRow, Family, inet, inet6, System, address_row, route_row,
  metric_row, add_address, add_route, delete_route, set_interface_metric, ok_idempotent,
}
use ace_tun.Platform.Windows.Adapter.{
  TunAdapter, Dll, M, resume, or_fail, install, install_all, configure_v4, configure_v6, configure,
  planned, begin_session, equip, close_on_error, create, create_loaded, delete_all, remove_routes,
  shutdown_session, drop_adapter, ring_capacity, load_wintun, tun_metric,
}

-- Windows drops the addresses, routes and settings that are bound to an interface when its adapter
-- is destroyed, and a new adapter comes with nothing else.
pub record DropsBound {Net : Type 0} (sys : System Net) : Type 0 where
  pub unicast :
      (row : UnicastRow) (n : Net)
      → sys.close row.luid (sys.create_unicast row n).0 ≡ sys.close row.luid n
  pub forward :
      (row : ForwardRow) (n : Net)
      → sys.close row.luid (sys.create_forward row n).0 ≡ sys.close row.luid n
  pub deleted :
      (row : ForwardRow) (n : Net)
      → sys.close row.luid (sys.delete_forward row n).0 ≡ sys.close row.luid n
  pub interface :
      (row : InterfaceRow) (n : Net)
      → sys.close row.luid (sys.set_interface row n).0 ≡ sys.close row.luid n
  pub mtu : (luid mtu : ℕ) (n : Net) → sys.close luid (sys.set_mtu luid mtu n).0 ≡ sys.close luid n
  pub session :
      (luid capacity : ℕ) (n : Net)
      → sys.close luid (sys.start_session luid capacity n).0 ≡ sys.close luid n
  pub shut : (luid : ℕ) (n : Net) → sys.close luid (sys.shutdown_session luid n) ≡ sys.close luid n
  pub made :
      (luid : ℕ) (n after : Net)
      → sys.create_adapter n ≡ some (luid, after)
      → sys.close luid after ≡ n

-- What a result holds, if there is one.
abbrev Gives : {A : Type 0} → (A → Type 0) → Result A → Type 0
Gives P (ok a) = P a
Gives P (err e) = Unit

abbrev Any : Unit {0} → Type 0
Any u = Unit

abbrev Bound : ℕ → List ForwardRow → Type 0
Bound luid [] = Unit
Bound luid (row ∷ rows) = (row.luid ≡ luid) × Bound luid rows

Bound-append :
    (luid : ℕ) (rows : List ForwardRow) (row : ForwardRow)
    → Bound luid rows
    → row.luid ≡ luid
    → Bound luid (rows ++ row ∷ [])
Bound-append luid [] row bound e = (e, tt)
Bound-append luid (r ∷ rows) row (b, bound) e = (b, Bound-append luid rows row bound e)

-- The network as it was: at once after a failure, and after a success when the adapter is dropped.
abbrev pub Restores : {Net : Type 0} → System Net → Net → Net × Result TunAdapter → Type 0
Restores sys before (n, ok adapter) = drop_adapter sys adapter n ≡ before
Restores sys before (n, err e) = n ≡ before

module _ {Net : Type 0} (sys : System Net) (drops : DropsBound sys) where
  open drops use {unicast, forward, deleted, interface, mtu, session, shut, made}

  -- A step that changes only what is bound to an adapter, and gives what satisfies a predicate.
  abbrev Keeps : {A : Type 0} → ℕ → (A → Type 0) → Net → Net × Result A → Type 0
  Keeps luid P n r = (sys.close luid r.0 ≡ sys.close luid n) × Gives P r.1

  resume-Keeps :
      {A B : Type 0} (luid : ℕ) (P : A → Type 0) (Q : B → Type 0) (n : Net) (f : A → M Net B)
      (r : Net × Result A)
      → Keeps luid P n r
      → ((a : A) (m : Net) → P a → Keeps luid Q m (f a m))
      → Keeps luid Q n (resume f r)
  resume-Keeps luid P Q n f (m, ok a) (same, p) next =
      let (kept, q) = next a m p in (kept ∙ same, q)
  resume-Keeps luid P Q n f (m, err e) (same, p) next = (same, tt)

  or_fail-Keeps :
      (luid : ℕ) (e : Error) (call : Net → Net × Bool) (n : Net)
      → sys.close luid (call n).0 ≡ sys.close luid n
      → Keeps luid Any n (or_fail e call n)
  or_fail-Keeps luid e call n same = elim (Bool-cases (call n).1) [
    | inl fine ↦ rw fine (same, tt)
    | inr bad ↦ rw bad (same, tt)
  ]

  set_interface_metric-close :
      (luid : ℕ) (family : Family) (metric : ℕ) (n : Net)
      → sys.close luid (set_interface_metric sys luid family metric n).0 ≡ sys.close luid n
  unfolding set_interface_metric metric_row
  set_interface_metric-close luid family metric n =
      elim (Option-cases (sys.get_interface family luid n)) [
        | inl missing ↦ rw (set_interface_metric, missing) refl
        | inr (row, found) ↦
            rw (set_interface_metric, found) (interface (metric_row family luid metric row) n)
      ]

  install-Keeps :
      (luid : ℕ) (dest : IpAddr) (prefix : ℕ) (n : Net)
      → Keeps luid (λ (row : ForwardRow). row.luid ≡ luid) n (install sys luid dest prefix n)
  unfolding install add_route route_row
  install-Keeps luid dest prefix n =
      let row = route_row luid dest prefix 0 in
      elim (Bool-cases (ok_idempotent (sys.create_forward row n).1)) [
        | inl fine ↦ rw (install, add_route, fine) (forward row n, refl)
        | inr bad ↦ rw (install, add_route, bad) (forward row n, tt)
      ]

  install_all-Keeps :
      (luid : ℕ) (nets : List (IpAddr × ℕ)) (routes : List ForwardRow) (n : Net)
      → Bound luid routes
      → Keeps luid (Bound luid) n (install_all sys luid nets routes n)
  unfolding install_all
  install_all-Keeps luid [] routes n bound = (refl, bound)
  install_all-Keeps luid ((dest, prefix) ∷ more) routes n bound =
      resume-Keeps luid (λ (row : ForwardRow). row.luid ≡ luid) (Bound luid) n
        (λ handle. install_all sys luid more (routes ++ handle ∷ []))
        (install sys luid dest prefix n) (install-Keeps luid dest prefix n)
        (λ handle m e.
          install_all-Keeps luid more (routes ++ handle ∷ []) m
            (Bound-append luid routes handle bound e))

  configure_family-Keeps :
      (luid : ℕ) (a b : Error) (addr : IpAddr) (prefix : ℕ) (family : Family) (n : Net)
      → Keeps luid Any n (
          resume
            (λ _. or_fail b (set_interface_metric sys luid family tun_metric))
            (or_fail a (add_address sys luid addr prefix) n))
  unfolding add_address address_row
  configure_family-Keeps luid a b addr prefix family n =
      resume-Keeps luid Any Any n (λ _. or_fail b (set_interface_metric sys luid family tun_metric))
        (or_fail a (add_address sys luid addr prefix) n)
        (or_fail-Keeps luid a (add_address sys luid addr prefix) n
          (unicast (address_row luid addr prefix) n))
        (λ u m _.
          or_fail-Keeps luid b (set_interface_metric sys luid family tun_metric) m
            (set_interface_metric-close luid family tun_metric m))

  configure_v6_if-Keeps :
      (luid : ℕ) (ipv6 : Bool) (n : Net)
      → Keeps luid Any n ((if ipv6 then configure_v6 sys luid else λ net. (net, ok tt)) n)
  unfolding configure_v6
  configure_v6_if-Keeps luid true n =
      configure_family-Keeps luid _ _ (v6 tun_ipv6) tun_ipv6_prefix inet6 n
  configure_v6_if-Keeps luid false n = (refl, tt)

  configure-Keeps :
      (luid : ℕ) (ipv6 : Bool) (n : Net) → Keeps luid Any n (configure sys luid ipv6 n)
  unfolding configure configure_v4
  configure-Keeps luid ipv6 n =
      resume-Keeps luid Any Any n _ _
        (or_fail-Keeps luid _ (sys.set_mtu luid tun_mtu) n (mtu luid tun_mtu n))
        (λ u m _.
          resume-Keeps luid Any Any m _ (configure_v4 sys luid m)
            (configure_family-Keeps luid _ _ (v4 tun_ipv4) tun_ipv4_prefix inet m)
            (λ u' m' _. configure_v6_if-Keeps luid ipv6 m'))

  abbrev Equipped : ℕ → TunAdapter → Type 0
  Equipped luid adapter = (adapter.luid ≡ luid) × Bound luid adapter.routes

  begin_session-Keeps :
      (luid : ℕ) (ipv6 : Bool) (n : Net)
      → Keeps luid (Equipped luid) n (begin_session sys luid ipv6 n)
  unfolding begin_session
  begin_session-Keeps luid ipv6 n =
      resume-Keeps luid Any (Equipped luid) n _ _
        (or_fail-Keeps luid (Error.session_start (codes "session"))
          (sys.start_session luid ring_capacity) n (session luid ring_capacity n))
        (λ u m _.
          resume-Keeps luid (Bound luid) (Equipped luid) m
            (λ routes net. (net, ok (record { luid = luid; routes = routes })))
            (install_all sys luid (planned ipv6) [] m)
            (install_all-Keeps luid (planned ipv6) [] m tt)
            (λ routes k bound. (refl, (refl, bound))))

  equip-Keeps :
      (luid : ℕ) (ipv6 : Bool) (n : Net) → Keeps luid (Equipped luid) n (equip sys luid ipv6 n)
  unfolding equip
  equip-Keeps luid ipv6 n =
      resume-Keeps luid Any (Equipped luid) n (λ _. begin_session sys luid ipv6)
        (configure sys luid ipv6 n) (configure-Keeps luid ipv6 n)
        (λ u m _. begin_session-Keeps luid ipv6 m)

  delete_all-close :
      (luid : ℕ) (rows : List ForwardRow) (n : Net)
      → Bound luid rows
      → sys.close luid (delete_all sys rows n) ≡ sys.close luid n
  unfolding delete_all delete_route
  delete_all-close luid [] n bound = refl
  delete_all-close luid (row ∷ rows) n (b, bound) =
      delete_all-close luid rows (sys.delete_forward row n).0 bound
      ∙ subst (λ l. sys.close l (sys.delete_forward row n).0 ≡ sys.close l n) b (deleted row n)

  drop_adapter-close :
      (luid : ℕ) (adapter : TunAdapter) (n : Net)
      → Equipped luid adapter
      → drop_adapter sys adapter n ≡ sys.close luid n
  unfolding drop_adapter remove_routes shutdown_session
  drop_adapter-close luid adapter n (same, bound) =
      ap (λ l. sys.close l (sys.shutdown_session l (delete_all sys adapter.routes n))) same
      ∙ shut luid (delete_all sys adapter.routes n)
      ∙ delete_all-close luid adapter.routes n bound

  close_on_error-Restores :
      (luid : ℕ) (before made_net : Net) (r : Net × Result TunAdapter)
      → sys.close luid made_net ≡ before
      → Keeps luid (Equipped luid) made_net r
      → Restores sys before (close_on_error sys luid r)
  unfolding close_on_error
  close_on_error-Restores luid before made_net (n, ok adapter) fresh (same, equipped) =
      drop_adapter-close luid adapter n equipped ∙ same ∙ fresh
  close_on_error-Restores luid before made_net (n, err e) fresh (same, _) = same ∙ fresh

  create_loaded-Restores : (ipv6 : Bool) (n : Net) → Restores sys n (create_loaded sys ipv6 n)
  unfolding create_loaded
  create_loaded-Restores ipv6 n = elim (Option-cases (sys.create_adapter n)) [
    | inl none_made ↦ rw (create_loaded, none_made) refl
    | inr ((luid, after), e) ↦
        rw (create_loaded, e)
          (close_on_error-Restores luid n after (equip sys luid ipv6 after) (made luid n after e)
            (equip-Keeps luid ipv6 after))
  ]

  -- If Windows drops what is bound to an adapter when that is destroyed, then a creation that fails,
  -- at whatever step and whatever the answers, leaves the network configuration as it was before,
  -- and after a success dropping the adapter restores it.
  pub create-Restores : (dll : Dll) (ipv6 : Bool) (n : Net) → Restores sys n (create sys dll ipv6 n)
  unfolding create
  create-Restores dll ipv6 n = loaded (load_wintun dll)
    where
      loaded :
          (r : Result (Unit {0}))
          → Restores sys n (resume (λ (u : Unit {0}). create_loaded sys ipv6) (n, r))
      loaded (ok u) = create_loaded-Restores ipv6 n
      loaded (err e) = refl
