-- ===== src/Platform/Linux/Device/Elevation.antt =====
-- When the Linux device asks for privileges (src/platform/linux/adapter.rs).
use ace_tun.Base.{
  ℕ, Bool, true, false, Option, none, some, ◌≡◌, ◌↔◌, ◌⊎◌, inl, inr, refl, ap, ◌≢◌, List, [],
  if◌then◌else◌, arith,
}
use ace_tun.Text.{Text, codes}
use ace_tun.Error.{Error, Result, ok, err}
use ace_tun.Platform.Linux.Netcfg.{Kind, permission_denied, Io, done, failed, Kernel}
use ace_tun.Platform.Linux.Device.{
  Tun, adapter_name, privilege_or, index_of, attach, opened, open_device, host_at, net_host,
  index_or_zero, create,
}
use ace_tun.Platform.{PhysicalInterface}
use ace_tun.Platform.Linux.Process.{is_privileged}
use ace_tun.Platform.Backend
use ace_tun.Platform.Linux.Adapter.{
  NetHost, Route, Routed, prepare, settle, route_device, install_all, planned_routes,
}
use ace_tun.Platform.Linux.Adapter

err_inj : {A : Type 0} {x y : Error} → ◌≡◌ {A = Result A} (err x) (err y) → x ≡ y
err_inj h = cc

privilege_or-eq :
    (op : Text) (kind : Kind) → privilege_or op kind ≡ Error.not_elevated → kind ≡ permission_denied
privilege_or-eq op kind h = ground arith

-- The kernel denies the attachment, or the opening, for lack of privileges.
abbrev pub DeniedIff : Tun → Type 0
DeniedIff t = (t.set_iff adapter_name ≡ none) × (t.set_iff_error ≡ permission_denied)

abbrev pub Denied : Tun → Type 0
Denied t =
    let opening = t.open_node (if t.exists then true else t.made) in
    (opening ≡ failed permission_denied) ⊎ ((opening ≡ done) × DeniedIff t)

attach-DeniedIff : (t : Tun) → attach t ≡ err Error.not_elevated → DeniedIff t
unfolding attach index_of
attach-DeniedIff t h = ground arith

DeniedIff-attach : (t : Tun) → DeniedIff t → attach t ≡ err Error.not_elevated
unfolding attach index_of
DeniedIff-attach t (a, b) = ground arith

opened-denied :
    (t : Tun) (io : Io)
    → opened t io ≡ err Error.not_elevated
    → (io ≡ failed permission_denied) ⊎ ((io ≡ done) × DeniedIff t)
opened-denied t done h = inr (refl, attach-DeniedIff t h)
opened-denied t (failed kind) h =
    inl (ap failed (privilege_or-eq (codes "open(/dev/net/tun)") kind (err_inj h)))

denied-opened :
    (t : Tun) (io : Io)
    → (io ≡ failed permission_denied) ⊎ ((io ≡ done) × DeniedIff t)
    → opened t io ≡ err Error.not_elevated
denied-opened t io (inl e) = rw e
denied-opened t io (inr (e, d)) = rw e (DeniedIff-attach t d)

open_device-Denied : (t : Tun) → open_device t ≡ err Error.not_elevated → Denied t
unfolding open_device
open_device-Denied t h = opened-denied t (t.open_node (if t.exists then true else t.made)) h

Denied-open_device : (t : Tun) → Denied t → open_device t ≡ err Error.not_elevated
unfolding open_device
Denied-open_device t d = denied-opened t (t.open_node (if t.exists then true else t.made)) d

prepare-ne :
    (h : NetHost) (ifindex : ℕ) (ipv6 : Bool) → prepare h ifindex ipv6 ≢ some Error.not_elevated
unfolding prepare
prepare-ne h ifindex ipv6 e = ground arith

settle-ne : (h : NetHost) (r : Routed × Bool) → (settle h r).1 ≢ err Error.not_elevated
unfolding settle
settle-ne h (s, true) e = cc
settle-ne h (s, false) e = cc

route_device-ne :
    (h : NetHost) (ifindex : ℕ) (ipv6 : Bool) (iface : PhysicalInterface) (table : List Route)
    (failure : Option Error)
    → failure ≢ some Error.not_elevated
    → (route_device h ifindex ipv6 iface table failure).1 ≢ err Error.not_elevated
unfolding route_device
route_device-ne h ifindex ipv6 iface table none ne e =
    settle-ne h
      (install_all h (planned_routes ifindex ipv6 iface) (record { routes = []; table = table })) e
route_device-ne h ifindex ipv6 iface table (some x) ne e = ne (ap some (err_inj e))

create_privileged-not_elevated_iff :
    (k : Kernel) (t : Tun) (ipv6 : Bool) (iface : PhysicalInterface) (table : List Route)
    → ((create k t ipv6 iface table).1 ≡ err Error.not_elevated) ↔ Denied t
unfolding create net_host host_at Adapter.create
create_privileged-not_elevated_iff k t ipv6 iface table =
    (λ h. open_device-Denied t (reported (open_device t) h), λ d. rw (Denied-open_device t d))
  where
    reported :
        (d : Result ℕ)
        → (Adapter.create (host_at k d (index_or_zero d)) ipv6 iface table).1
          ≡ err Error.not_elevated
        → d ≡ err Error.not_elevated
    reported (err e) h = ap err (err_inj h)
    reported (ok ifindex) h =
        let host = host_at k (ok ifindex) ifindex in
        absurd (
          route_device-ne host ifindex ipv6 iface table (prepare host ifindex ipv6)
            (prepare-ne host ifindex ipv6) h)

-- `Backend::create` on Linux, behind the check of the capabilities, reports that privileges are
-- missing exactly when the check denies them, or the kernel denies the opening of /dev/net/tun, or
-- the attachment to it, for lack of privileges.
pub create-not_elevated_iff :
    (caps : Option (List ℕ)) (euid : ℕ) (may : Bool)
    → is_privileged caps euid ≡ some may
    → (k : Kernel) (t : Tun) (ipv6 : Bool) (iface : PhysicalInterface) (s : Routed)
    → ((Backend.create may (λ (r : Routed). create k t ipv6 iface r.table) s).1
        ≡ err Error.not_elevated)
      ↔ ((is_privileged caps euid ≡ some false) ⊎ Denied t)
unfolding Backend.create
create-not_elevated_iff caps euid true checked k t ipv6 iface s = (
  λ h. inr ((create_privileged-not_elevated_iff k t ipv6 iface s.table).0 h),
  λ d. (create_privileged-not_elevated_iff k t ipv6 iface s.table).1 (denied_of d),
)
  where
    denied_of : (is_privileged caps euid ≡ some false) ⊎ Denied t → Denied t
    denied_of (inl e) = cc
    denied_of (inr d) = d
create-not_elevated_iff caps euid false checked k t ipv6 iface s = (λ h. inl checked, λ d. refl)
