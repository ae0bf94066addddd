-- ===== src/Platform/Windows/Adapter.antt =====
-- src/platform/windows/adapter.rs: `TunAdapter` with its addresses, its session and its routes. An
-- error names its operation; the texts of the system and of the address in it are left out.
pub mod Restore
use ace_tun.Base.{
  ℕ, zero, suc, ◌+◌, ◌*◌, ◌^◌, Bool, true, false, Option, none, some, List, [], ◌∷◌, ◌++◌, map,
  if◌then◌else◌, ◌==◌, ◌&&◌, not,
}
use ace_tun.Text.{Text, codes}
use ace_tun.Addr.{IpAddr, v4, v6}
use ace_tun.Error.{Error, Result, ok, err}
use ace_tun.Platform.{
  tun_ipv4, tun_ipv4_prefix, tun_ipv6, tun_ipv6_prefix, tun_mtu, v4_split_default, v6_split_default,
}
use ace_tun.Platform.Windows.Netcfg.{
  ForwardRow, System, Family, inet, inet6, add_address, add_route, delete_route,
  set_interface_metric,
}

abbrev pub adapter_name : Text
adapter_name = codes "Ace Blocker"

abbrev pub tun_metric : ℕ
tun_metric = 1

abbrev pub ring_capacity : ℕ
ring_capacity = 0x40_0000

-- The adapter by its LUID, and the handles of its routes in the order of their creation.
pub record TunAdapter : Type 0 where
  pub luid : ℕ
  pub routes : List ForwardRow

-- The directory of the program, if it is known, holds a wintun.dll, and each attempt to load that
-- succeeds or not; then the system's search path.
pub record Dll : Type 0 where
  pub is_local : Bool
  pub loads_local : ℕ → Bool
  pub loads : Bool

abbrev pub load_retry_attempts : ℕ
load_retry_attempts = 5

-- Whether one of the attempts that are left loads the local file.
unfoldable pub load_retry : Dll → ℕ → ℕ → Bool
load_retry dll zero attempt = false
load_retry dll (suc left) attempt =
    let rest = load_retry dll left (attempt + 1) in if dll.loads_local attempt then true else rest

unfoldable pub load_wintun : Dll → Result (Unit {0})
unfolding load_retry
load_wintun dll =
    if dll.is_local && load_retry dll load_retry_attempts 1
    then ok tt
    else if dll.loads
    then ok tt
    else err (Error.wintun_load (codes "wintun.dll"))

-- The process's token, if it can be opened, and what it says of its elevation, if it answers.
unfoldable pub is_elevated : Option (Option ℕ) → Bool
is_elevated none = false
is_elevated (some none) = false
is_elevated (some (some value)) = not (value == 0)

networks : (ℕ → IpAddr) → List (ℕ × ℕ) → List (IpAddr × ℕ)
networks family [] = []
networks family ((net, prefix) ∷ more) = (family net, prefix) ∷ networks family more

-- The two halves of the address space, of one family or of both.
unfoldable pub planned : Bool → List (IpAddr × ℕ)
unfolding networks
planned ipv6 = networks v4 v4_split_default ++ (if ipv6 then networks v6 v6_split_default else [])

-- A step on the network configuration that may fail.
abbrev pub M : Type 0 → Type 0 → Type 0
M Net A = Net → Net × Result A

abbrev pub resume : {Net A B : Type 0} → (A → M Net B) → Net × Result A → Net × Result B
resume f (net, ok a) = f a net
resume f (net, err e) = (net, err e)

infixl 5 ◌>>=◌ ◌>>◌
abbrev pub ◌>>=◌ : {Net A B : Type 0} → M Net A → (A → M Net B) → M Net B
◌>>=◌ m f net = resume f (m net)

abbrev pub ◌>>◌ : {Net B : Type 0} → M Net (Unit {0}) → M Net B → M Net B
m >> k = m >>= λ _. k

abbrev pub pure : {Net A : Type 0} → A → M Net A
pure a net = (net, ok a)

-- `map_err`, on a call that answers by whether it succeeded.
abbrev pub or_fail : {Net : Type 0} → Error → (Net → Net × Bool) → M Net (Unit {0})
or_fail e call net = let (after, fine) = call net in (after, if fine then ok tt else err e)

abbrev pub or_netcfg : {Net : Type 0} → Text → (Net → Net × Bool) → M Net (Unit {0})
or_netcfg op call = or_fail (Error.net_config op) call

module _ {Net : Type 0} (sys : System Net) where
  -- The closure `install`, which gives the handle to keep.
  unfoldable pub install : ℕ → IpAddr → ℕ → M Net ForwardRow
  install luid dest prefix net =
      let (after, handle) = add_route sys luid dest prefix 0 net in
      (after, elim handle [ none ↦ err (Error.net_config (codes "add_route")) | some row ↦ ok row ])

  -- The handles with those of the networks installed one after the other.
  unfoldable pub install_all : ℕ → List (IpAddr × ℕ) → List ForwardRow → M Net (List ForwardRow)
  install_all luid [] routes net = (net, ok routes)
  install_all luid ((dest, prefix) ∷ more) routes net =
      resume (λ handle. install_all luid more (routes ++ handle ∷ []))
        (install luid dest prefix net)

  unfoldable pub configure_v4 : ℕ → M Net (Unit {0})
  configure_v4 luid = do
    or_netcfg (codes "add_address(v4)") (add_address sys luid (v4 tun_ipv4) tun_ipv4_prefix)
    or_netcfg (codes "set_interface_metric(v4)") (set_interface_metric sys luid inet tun_metric)

  unfoldable pub configure_v6 : ℕ → M Net (Unit {0})
  configure_v6 luid = do
    or_netcfg (codes "add_address(v6)") (add_address sys luid (v6 tun_ipv6) tun_ipv6_prefix)
    or_netcfg (codes "set_interface_metric(v6)") (set_interface_metric sys luid inet6 tun_metric)

  unfoldable pub configure : ℕ → Bool → M Net (Unit {0})
  unfolding configure_v4 configure_v6
  configure luid ipv6 = do
    or_netcfg (codes "set_mtu") (sys.set_mtu luid tun_mtu)
    configure_v4 luid
    if ipv6 then configure_v6 luid else pure tt

  -- The routes are installed only once the session can carry packets.
  unfoldable pub begin_session : ℕ → Bool → M Net TunAdapter
  unfolding install_all planned
  begin_session luid ipv6 = do
    or_fail (Error.session_start (codes "session")) (sys.start_session luid ring_capacity)
    routes ← install_all luid (planned ipv6) []
    pure (record { luid = luid; routes = routes })

  -- What `create` does with an adapter that exists.
  unfoldable pub equip : ℕ → Bool → M Net TunAdapter
  unfolding configure begin_session
  equip luid ipv6 = do configure luid ipv6; begin_session luid ipv6

  -- On an error the last handle of the adapter closes.
  unfoldable pub close_on_error : ℕ → Net × Result TunAdapter → Net × Result TunAdapter
  close_on_error luid (net, ok adapter) = (net, ok adapter)
  close_on_error luid (net, err e) = (sys.close luid net, err e)

  create_loaded : Bool → M Net TunAdapter
  unfolding equip close_on_error
  create_loaded ipv6 net = elim (sys.create_adapter net) [
    | none ↦ (net, err (Error.adapter_create adapter_name (codes "reason")))
    | some (luid, made) ↦ close_on_error luid (equip luid ipv6 made)
  ]

  -- `TunAdapter::create`.
  unfoldable pub create : Dll → Bool → M Net TunAdapter
  unfolding load_wintun create_loaded
  create dll ipv6 net = resume (λ loaded. create_loaded ipv6) (net, load_wintun dll)

  -- Errors are ignored.
  unfoldable pub delete_all : List ForwardRow → Net → Net
  delete_all [] net = net
  delete_all (row ∷ more) net = delete_all more (delete_route sys row net).0

  unfoldable pub remove_routes : TunAdapter → Net → TunAdapter × Net
  unfolding delete_all
  remove_routes adapter net = (record adapter { routes = [] }, delete_all adapter.routes net)

  unfoldable pub shutdown_session : TunAdapter → Net → Net
  shutdown_session adapter net = sys.shutdown_session adapter.luid net

  -- `Drop for TunAdapter`: the handles close last.
  unfoldable pub drop_adapter : TunAdapter → Net → Net
  unfolding remove_routes shutdown_session
  drop_adapter adapter net =
      let (emptied, left) = remove_routes adapter net in
      sys.close emptied.luid (shutdown_session emptied left)
