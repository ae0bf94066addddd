-- ===== src/Platform/Linux/Tests.antt =====
-- src/platform/linux: the tests of process.rs, and the theorems applied to concrete input.
use ace_tun.Base.{◌>>=◌}
use ace_tun.Base.{ℕ, true, false, none, some, [], ◌∷◌, ◌≡◌, refl, or_else, ◌==◌, if◌then◌else◌}
use ace_tun.Platform.Linux.Process.{Protocol, tcp, udp}
use ace_tun.Platform.Linux.Process.Diag.{Diag, DiagMessage}
use ace_tun.Platform.Linux.Process.Attribution.{port_asked}
use ace_tun.Platform.Linux.Netlink.{inner, Message}
use ace_tun.Addr.{IpAddr, SocketAddr}
use ace_tun.Base.{◌>>=◌, Bool, ◌&&◌}
use ace_tun.Base.{ℕ, List, ◌≢◌, ◌↔◌, ◌⊎◌}
use ace_tun.Error.{Error, err}
use ace_tun.Platform.{PhysicalInterface}
use ace_tun.Platform.Backend
use ace_tun.Platform.Linux.Netcfg.{
  new_route, Kernel, Kind, already_exists, not_found, not_connected, permission_denied, other_kind,
  Io, done, failed, ask_route, handle_of, delete_route, add_route,
}
use ace_tun.Platform.Linux.Adapter.{Route, Routed}
use ace_tun.Platform.Linux.Adapter.Routes.{Leaves}
use ace_tun.Platform.Linux.Device.{Tun, net_host, message_for, create}
use ace_tun.Platform.Linux.Device.Restore.{create_on_kernel-Leaves}
use ace_tun.Platform.Linux.Device.Elevation.{Denied, create-not_elevated_iff}
use ace_tun.Platform.Linux.Netlink.{Attribute}
use ace_tun.Base.{zero, suc}
use ace_tun.Text.{codes}
use ace_tun.Addr.{v4, v6}
use ace_tun.Platform.Linux.Netlink.{Message, error, Deserialize, timed_out, acked, wait_for_ack}
use ace_tun.Platform.Linux.Netlink.Stale.{wait_for_ack-stale}
use ace_tun.Platform.Linux.Process.{
  ProcEntry, ProcessCache, socket_inode_of, inode_to_pid, wildcard, is_privileged,
}
use ace_tun.Platform.Linux.Process.Scan.{first_holder, inode_to_pid-twice}

parses_socket_symlink_targets :
    (socket_inode_of (codes "socket:[123456]") ≡ some 123456)
    × (socket_inode_of (codes "socket:[0]") ≡ some 0)
    × (socket_inode_of (codes "/usr/bin/foo") ≡ none)
    × (socket_inode_of (codes "socket:[abc]") ≡ none)
    × (socket_inode_of [] ≡ none)
unfolding socket_inode_of
parses_socket_symlink_targets = (refl, refl, refl, refl, refl)

wildcard_address_matches_family : (wildcard (v4 7) ≡ v4 0) × (wildcard (v6 1) ≡ v6 0)
unfolding wildcard
wildcard_address_matches_family = (refl, refl)

-- The bits 12 and 13 of the first word.
both_capabilities : is_privileged (some (0x3000 ∷ 0 ∷ [])) 1000 ≡ some true
unfolding is_privileged
both_capabilities = refl

-- A message is its sequence number and, for an acknowledgement, a zero.
unfoldable two_bytes : Deserialize ℕ
two_bytes [] = none
two_bytes (n ∷ []) = none
two_bytes (n ∷ (code ∷ ds)) =
    some (record { sequence = n; payload = error (if code == 0 then none else some code) })

acknowledged : wait_for_ack two_bytes 7 ((7 ∷ 0 ∷ []) ∷ []) ≡ acked
unfolding wait_for_ack two_bytes
acknowledged = refl

foreign : (m : Message ℕ) × (two_bytes (3 ∷ 0 ∷ []) ≡ some m) × ((m.sequence == 7) ≡ false)
unfolding two_bytes
foreign = (record { sequence = 3; payload = error none }, refl, refl)

-- The acknowledgement comes second, and is never read.
wait_for_ack-stale_example : wait_for_ack two_bytes 7 ((3 ∷ 0 ∷ []) ∷ (7 ∷ 0 ∷ []) ∷ []) ≡ timed_out
wait_for_ack-stale_example =
    wait_for_ack-stale two_bytes 7 (3 ∷ 0 ∷ []) ((7 ∷ 0 ∷ []) ∷ []) foreign (refl, tt)

abbrev curl : ProcEntry
curl = record {
  name = some (codes "812");
  fds = some (some (codes "/dev/null") ∷ none ∷ some (codes "socket:[4711]") ∷ []);
}

abbrev wget : ProcEntry
wget = record { name = some (codes "900"); fds = some (some (codes "socket:[4711]") ∷ []) }

abbrev empty : ProcessCache
empty = record { endpoints = []; inodes = none }

inode_to_pid-twice_example :
    (inode_to_pid (some (wget ∷ [])) (inode_to_pid (some (curl ∷ [])) empty 4711).0 4711).1
    ≡ or_else (first_holder 4711 (curl ∷ [])) (first_holder 4711 (wget ∷ []))
inode_to_pid-twice_example = inode_to_pid-twice empty 4711 (curl ∷ []) (wget ∷ []) refl

-- The socket is now the other program's.
stale_owner : or_else (first_holder 4711 (curl ∷ [])) (first_holder 4711 (wget ∷ [])) ≡ some 812
unfolding first_holder socket_inode_of
stale_owner = refl

-- What the standard library gives for the codes of Linux.
abbrev kind_of : ℕ → Kind
kind_of code =
    if code == 17
    then already_exists
    else if code == 2
    then not_found
    else if code == 107
    then not_connected
    else if code == 1
    then permission_denied
    else if code == 13
    then permission_denied
    else other_kind

-- A datagram is the code of an error, with 0 for an acknowledgement.
abbrev code_message : Deserialize (List Attribute)
code_message [] = none
code_message (zero ∷ d) = some (record { sequence = 0; payload = error none })
code_message (suc n ∷ d) = some (record { sequence = 0; payload = error (some (suc n)) })

abbrev answering : ℕ → Kernel
answering code = record {
  opens = done;
  sends = λ m. done;
  replies = λ m. (code ∷ []) ∷ [];
  deserialize = code_message;
  kind_of = kind_of;
  makes = λ i. code == 0;
}

abbrev tun : Io → Tun
tun opening = record {
  exists = false;
  made = true;
  open_node = λ exists. opening;
  set_iff = λ template. some (codes "ace0");
  set_iff_error = other_kind;
  set_nonblocking = true;
  if_nametoindex = λ name. 7;
}

abbrev wired : PhysicalInterface
wired = record { v4_index = some 2; v6_index = none }

all_new : (r : Route) → ask_route (answering 0) r.ifindex r.dest r.prefix ≢ failed already_exists
unfolding ask_route
all_new r e = cc

none_fails :
    (r : Route) (kind : Kind)
    → ask_route (answering 0) r.ifindex r.dest r.prefix ≡ failed kind
    → (answering 0).makes (new_route (message_for r)) ≡ false
unfolding ask_route
none_fails r kind e = cc

create_on_kernel-Leaves_example :
    Leaves (net_host (answering 0) (tun done)) [] (create (answering 0) (tun done) true wired [])
create_on_kernel-Leaves_example =
    create_on_kernel-Leaves (answering 0) (tun done) all_new none_fails (λ r. refl) true wired []

create-not_elevated_iff_example :
    ((Backend.create true
        (λ (r : Routed). create (answering 0) (tun (failed permission_denied)) true wired r.table)
        (record { routes = []; table = [] })).1
      ≡ err Error.not_elevated)
    ↔ ((is_privileged (some (0x3000 ∷ 0 ∷ [])) 1000 ≡ some false)
        ⊎ Denied (tun (failed permission_denied)))
unfolding is_privileged
create-not_elevated_iff_example =
    create-not_elevated_iff (some (0x3000 ∷ 0 ∷ [])) 1000 true refl (answering 0)
      (tun (failed permission_denied)) true wired (record { routes = []; table = [] })

-- Adding what exists is no failure. A route that is gone is one, since its code, 3, is of no kind of
-- its own.
missing_route_is_an_error :
    (add_route (answering 17) 7 (v4 0) 1 ≡ some (handle_of 7 (v4 0) 1))
    × (delete_route (answering 3) (handle_of 7 (v4 0) 1) ≡ failed other_kind)
    × (delete_route (answering 2) (handle_of 7 (v4 0) 1) ≡ done)
unfolding add_route delete_route
missing_route_is_an_error = (refl, refl, refl)

-- A kernel with one socket, that of inode 77, which is of UDP and bound to every address.
abbrev mdns : Protocol → IpAddr → ℕ → Bool
mdns tcp ip port = false
mdns udp (v4 a) port = a == 0 && port == 5353
mdns udp (v6 a) port = false

abbrev Mdns : Protocol → IpAddr → ℕ → ℕ → Type 0
Mdns protocol ip port inode = mdns protocol ip port ≡ true

abbrev inode_message : Deserialize ℕ
inode_message [] = some (record { sequence = 1; payload = error (some 2) })
inode_message (inode ∷ d) = some (record { sequence = 1; payload = inner inode })

abbrev datagram_of : Bool → List ℕ
datagram_of found = if found then 77 ∷ [] else []

abbrev asks_mdns : DiagMessage → Bool
asks_mdns m =
    mdns m.request.protocol m.request.socket_id.source_address
      (port_asked m.request.protocol m.request.socket_id)

abbrev diag : Diag
diag = record {
  opens = true;
  binds = true;
  times = true;
  sends = λ m. true;
  replies = λ m. datagram_of (asks_mdns m) ∷ [];
  deserialize = inode_message;
}

abbrev resolver : ProcEntry
resolver = record { name = some (codes "42"); fds = some (some (codes "socket:[77]") ∷ []) }

abbrev local_mdns : SocketAddr
local_mdns = record { ip = v4 7; port = 5353 }

abbrev empty_cache : ProcessCache
empty_cache = record { endpoints = []; inodes = none }
