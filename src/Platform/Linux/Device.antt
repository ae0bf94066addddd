-- ===== src/Platform/Linux/Device.antt =====
-- src/platform/linux/adapter.rs: `open_device`, and the adapter over the requests of netcfg.rs.
pub mod Elevation
pub mod Restore
use ace_tun.Base.{ℕ, Bool, true, false, Option, none, some, List, [], if◌then◌else◌, ◌==◌}
use ace_tun.Text.{Text, codes}
use ace_tun.Addr.{IpAddr}
use ace_tun.Error.{Error, Result, ok, err}
use ace_tun.Platform.{PhysicalInterface}
use ace_tun.Platform.Linux.Netcfg.{
  Kind, already_exists, not_found, not_connected, permission_denied, other_kind, Io, done, failed,
  Kernel, RouteMessage, new_route, del_route, handle_of, route_message, add_address,
  set_link_mtu_and_up, ask_route,
}
use ace_tun.Platform.Linux.Adapter.{Answer, added, existed, NetHost, Route}
use ace_tun.Platform.Linux.Adapter

abbrev pub adapter_name : Text
adapter_name = codes "ace%d"

-- The system calls of `open_device`. Clearing the offload mask may fail, and is no part of this.
pub record Tun : Type 0 where
  -- Whether /dev/net/tun exists, and whether it does once `mknod` was tried.
  pub exists : Bool
  pub made : Bool
  -- `open`, on a node that exists or not.
  pub open_node : Bool → Io
  -- `TUNSETIFF` with a name template: the name that the kernel assigned.
  pub set_iff : Text → Option Text
  pub set_iff_error : Kind
  pub set_nonblocking : Bool
  pub if_nametoindex : Text → ℕ

abbrev pub is_privilege_error : Kind → Bool
is_privilege_error permission_denied = true
is_privilege_error other_kind = false
is_privilege_error already_exists = false
is_privilege_error not_found = false
is_privilege_error not_connected = false

abbrev pub privilege_or : Text → Kind → Error
privilege_or op kind = if is_privilege_error kind then Error.not_elevated else Error.net_config op

-- The index of the interface with the name that was assigned.
unfoldable pub index_of : Tun → Text → Result ℕ
index_of t name =
    let ifindex = t.if_nametoindex name in
    if ifindex == 0 then err (Error.net_config (codes "if_nametoindex")) else ok ifindex

unfoldable pub attach : Tun → Result ℕ
unfolding index_of
attach t = elim (t.set_iff adapter_name) [
  | none ↦ err (privilege_or (codes "TUNSETIFF") t.set_iff_error)
  | some name ↦
      if t.set_nonblocking
      then index_of t name
      else err (Error.net_config (codes "fcntl(O_NONBLOCK)"))
]

abbrev pub opened : Tun → Io → Result ℕ
opened t done = attach t
opened t (failed kind) = err (privilege_or (codes "open(/dev/net/tun)") kind)

unfoldable pub open_device : Tun → Result ℕ
unfolding attach
open_device t = opened t (t.open_node (if t.exists then true else t.made))

abbrev pub is_done : Io → Bool
is_done done = true
is_done (failed kind) = false

-- What the adapter makes of the answer to a request for a route.
abbrev pub answer_of : Io → Answer
answer_of done = added
answer_of (failed already_exists) = existed
answer_of (failed kind) = Answer.failed

-- The message of `netcfg::add_route` for a route, and of `delete_route` for its handle.
abbrev pub message_for : Route → RouteMessage
message_for r =
    let handle = handle_of r.ifindex r.dest r.prefix in
    route_message handle.family handle.prefix_len handle.ifindex handle.dest

-- What `create` asks of the system, for an interface of this index.
unfoldable pub host_at : Kernel → Result ℕ → ℕ → NetHost
unfolding add_address set_link_mtu_and_up ask_route
host_at k device ifindex = record {
  device = device;
  add_address = λ addr prefix_len. is_done (add_address k ifindex addr prefix_len);
  link_up = λ mtu. is_done (set_link_mtu_and_up k ifindex mtu);
  add_route = λ r. answer_of (ask_route k r.ifindex r.dest r.prefix);
  lingers = λ r. k.makes (new_route (message_for r));
  deletes = λ r. k.makes (del_route (message_for r));
}

abbrev pub index_or_zero : Result ℕ → ℕ
index_or_zero (ok ifindex) = ifindex
index_or_zero (err e) = 0

unfoldable pub net_host : Kernel → Tun → NetHost
unfolding host_at open_device
net_host k t = let device = open_device t in host_at k device (index_or_zero device)

-- `TunAdapter::create` with the system calls and the requests behind it.
unfoldable pub create :
    Kernel → Tun → Bool → PhysicalInterface → List Route → Adapter.Routed × Result (Unit {0})
unfolding net_host Adapter.create
create k t ipv6 iface table = Adapter.create (net_host k t) ipv6 iface table
