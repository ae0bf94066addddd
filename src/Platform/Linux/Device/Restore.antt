-- ===== src/Platform/Linux/Device/Restore.antt =====
-- The Linux adapter over its requests (src/platform/linux/adapter.rs and netcfg.rs) leaves the routing
-- table as it was.
use ace_tun.Base.{false, true, ◌≡◌, refl, Bool, List, ◌≢◌, arith}
use ace_tun.Platform.{PhysicalInterface}
use ace_tun.Platform.Linux.Netcfg.{
  Kind, done, new_route, del_route, Io, failed, already_exists, Kernel, ask_route,
}
use ace_tun.Platform.Linux.Adapter.{Answer, existed, Route}
use ace_tun.Platform.Linux.Adapter.Routes.{Leaves, create-Leaves}
use ace_tun.Platform.Linux.Device.{Tun, answer_of, message_for, host_at, net_host, create}

answer_of-existed : (a : Io) → a ≢ failed already_exists → answer_of a ≢ existed
answer_of-existed a h e = ground arith

failed_kind :
    {P : Type 0} (a : Io) → answer_of a ≡ Answer.failed → ((kind : Kind) → a ≡ failed kind → P) → P
failed_kind done e next = cc
failed_kind (failed kind) e next = next kind refl

-- If the kernel never refuses a request for a route because the route exists, adds no route when the
-- code takes the request for failed, an acknowledgement that is lost included, and carries out every
-- request to delete a route, then a failure of `create`, at whatever step, leaves the routing table as
-- it was, and after a success the removal of the adapter's routes restores it.
pub create_on_kernel-Leaves :
    (k : Kernel) (t : Tun)
    → ((r : Route) → ask_route k r.ifindex r.dest r.prefix ≢ failed already_exists)
    → ((r : Route) (kind : Kind)
        → ask_route k r.ifindex r.dest r.prefix ≡ failed kind
        → k.makes (new_route (message_for r)) ≡ false)
    → ((r : Route) → k.makes (del_route (message_for r)) ≡ true)
    → (ipv6 : Bool) (iface : PhysicalInterface) (table : List Route)
    → Leaves (net_host k t) table (create k t ipv6 iface table)
unfolding create net_host host_at
create_on_kernel-Leaves k t fresh refused deleted ipv6 iface table =
    create-Leaves (net_host k t)
      (λ r. answer_of-existed (ask_route k r.ifindex r.dest r.prefix) (fresh r))
      (λ r e. failed_kind (ask_route k r.ifindex r.dest r.prefix) e (refused r)) deleted ipv6 iface
      table
