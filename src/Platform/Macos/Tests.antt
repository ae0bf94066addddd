-- ===== src/Platform/Macos/Tests.antt =====
-- src/platform/macos: the tests of process.rs, netcfg.rs and dial.rs, and the theorems applied to concrete input.
use ace_tun.Base.{
  ℕ, ◌+◌, ◌*◌, ◌^◌, ◌<◌, true, false, Option, none, some, List, [], ◌∷◌, ◌++◌, ◌≡◌, refl, arith,
  take, Holds,
}
use ace_tun.Addr.{IpAddr, v4, v6, SocketAddr, is_ipv6}
use ace_tun.Base.{◌-◌, if◌then◌else◌}
use ace_tun.Text.{codes, text_eq}
use ace_tun.Base.Int.{pos}
use ace_tun.Error.{Error, ok, err}
use ace_tun.Platform.Macos.Device.{Utun, open_device, permission_denied}
use ace_tun.Platform.Macos.Device
use ace_tun.Platform.{PhysicalInterface}
use ace_tun.Platform.Macos.Netcfg.{
  Shell, best_route_index, read_add, read_delete, added, existed, failed, netmask_v4, netmask_v6,
  v4_sockaddr,
}
use ace_tun.Platform.Macos.Dial.{ipv6_bound_if, pin_socket}
use ace_tun.Platform.Macos.Adapter.{
  Route, NetHost, handle, names, create, remove_routes, planned_routes, prepare, delete_route,
}
use ace_tun.Platform.Macos.Adapter.Removal.{less, present, claimed, create-removal}
use ace_tun.Platform.Process.{Endpoints, cached, remember}
use ace_tun.Platform.Macos.Process.{scan_pcblist, scan_loop, read_u32_le}
use ace_tun.Platform.Macos.Process.Total.{scan_pcblist_total}
use ace_tun.Platform.Macos.Process.Dump.{
  Rest, Socket, IsSocket, IsHeader, records, le_bytes, bytes, owner,
}
use ace_tun.Platform.Macos.Process.Search.{scan_pcblist-records, socket_pid}
use ace_tun.Platform.Macos.Process.Resolve.{
  Sysctl, resolve_pid, resolve_anew, pcblist_table, process_name, is_privileged,
}

abbrev zeros : ℕ → List ℕ
zeros n = bytes n (λ i. 0)

abbrev header : List ℕ
header = le_bytes 24 ++ zeros 20

abbrev ip : ℕ → ℕ → ℕ → ℕ → IpAddr
ip a b c d = v4 (((a * 256 + b) * 256 + c) * 256 + d)

abbrev at : IpAddr → ℕ → SocketAddr
at a p = record { ip = a; port = p }

abbrev tun : IpAddr
tun = ip 10 63 7 1

-- The records of the tests: 100 and 104 bytes, with zeros where nothing is written.
abbrev plain : Rest
plain = record { gaps = λ gap i. 0; inpcb_tail = zeros 20; socket_tail = zeros 32 }

-- Longer records, with other bytes in them.
abbrev noisy : Rest
noisy = record { gaps = λ gap i. 7; inpcb_tail = 1 ∷ 2 ∷ zeros 30; socket_tail = 3 ∷ zeros 50 }

abbrev connected : Socket
connected = record {
  pid = 4242;
  local_addr = tun;
  local_port = 12345;
  foreign_addr = ip 8 8 8 8;
  foreign_port = 443;
  vflag = 0x1;
  rest = plain;
}

abbrev listener : Socket
listener = record {
  pid = 9001;
  local_addr = tun;
  local_port = 8080;
  foreign_addr = v4 0;
  foreign_port = 0;
  vflag = 0x1;
  rest = plain;
}

abbrev child : Socket
child = record {
  pid = 9002;
  local_addr = tun;
  local_port = 8080;
  foreign_addr = ip 9 9 9 9;
  foreign_port = 80;
  vflag = 0x41;
  rest = noisy;
}

abbrev resolver : Socket
resolver = record {
  pid = 31337;
  local_addr = v4 0;
  local_port = 5353;
  foreign_addr = v4 0;
  foreign_port = 0;
  vflag = 0x1;
  rest = plain;
}

abbrev table : List Socket → List ℕ
table ss = header ++ records ss

connected_v4_socket_is_attributed :
    scan_pcblist (table (connected ∷ [])) (at tun 12345) (at (ip 8 8 8 8) 443) ≡ some (some 4242)
unfolding scan_pcblist scan_loop read_u32_le records
connected_v4_socket_is_attributed = refl

-- The code's test of this name expects that nothing is found.
wrong_remote_does_not_match :
    scan_pcblist (table (connected ∷ [])) (at tun 12345) (at (ip 1 1 1 1) 443) ≡ some (some 4242)
unfolding scan_pcblist scan_loop read_u32_le records
wrong_remote_does_not_match = refl

accepted_child_beats_listener :
    scan_pcblist (table (listener ∷ child ∷ [])) (at tun 8080) (at (ip 9 9 9 9) 80)
    ≡ some (some 9002)
unfolding scan_pcblist scan_loop read_u32_le records
accepted_child_beats_listener = refl

wildcard_bind_matches_by_port :
    scan_pcblist (table (resolver ∷ [])) (at (ip 10 1 2 3) 5353) (at (ip 224 0 0 251) 5353)
    ≡ some (some 31337)
unfolding scan_pcblist scan_loop read_u32_le records
wildcard_bind_matches_by_port = refl

family_mismatch_does_not_match :
    scan_pcblist (table (connected ∷ [])) (at (v6 1) 12345) (at (v6 2) 443) ≡ some none
unfolding scan_pcblist scan_loop read_u32_le records
family_mismatch_does_not_match = refl

records_cut_off :
    scan_pcblist (take 208 (table (connected ∷ []))) (at tun 12345) (at (ip 8 8 8 8) 443)
    ≡ some none
unfolding scan_pcblist scan_loop read_u32_le records
records_cut_off = refl

header-IsHeader : IsHeader header
unfolding read_u32_le
header-IsHeader = (refl, omega arith)

listener-IsSocket : IsSocket listener
unfolding is_ipv6
listener-IsSocket = record {
  family = refl;
  local_valid = omega arith;
  foreign_valid = omega arith;
  local_port_small = omega arith;
  foreign_port_small = omega arith;
  pid_small = omega arith;
  vflag_family = refl;
  inpcb_short = omega arith;
  socket_short = omega arith;
}

child-IsSocket : IsSocket child
unfolding is_ipv6
child-IsSocket = record {
  family = refl;
  local_valid = omega arith;
  foreign_valid = omega arith;
  local_port_small = omega arith;
  foreign_port_small = omega arith;
  pid_small = omega arith;
  vflag_family = refl;
  inpcb_short = omega arith;
  socket_short = omega arith;
}

scan_pcblist-records_example :
    scan_pcblist (header ++ records (listener ∷ child ∷ [])) (at tun 8080) (at (ip 9 9 9 9) 80)
    ≡ some (socket_pid (owner (at tun 8080) (at (ip 9 9 9 9) 80) (listener ∷ child ∷ [])))
unfolding records
scan_pcblist-records_example =
    scan_pcblist-records header (listener ∷ child ∷ []) (at tun 8080) (at (ip 9 9 9 9) 80)
      header-IsHeader (listener-IsSocket, (child-IsSocket, tt)) (omega arith)

scan_pcblist_total_example :
    (found : Option ℕ) × (scan_pcblist (header ++ 80 ∷ 0 ∷ []) (at tun 1) (at tun 2) ≡ some found)
    × Holds (λ pid. (0 < pid) × (pid < 2 ^ 31)) found
scan_pcblist_total_example = scan_pcblist_total (header ++ 80 ∷ 0 ∷ []) (at tun 1) (at tun 2)

unfoldable kernel : Sysctl
unfolding records
kernel = record {
  table_size = λ is_udp. some 228;
  fetch_table = λ is_udp n. some (table (connected ∷ []), 228);
  short_name = λ pid. some (b'c' ∷ b'u' ∷ b'r' ∷ b'l' ∷ 0 ∷ b'x' ∷ []);
  effective_uid = 0;
}

name_before_zero : process_name kernel 7 ≡ some (b'c' ∷ b'u' ∷ b'r' ∷ b'l' ∷ [])
unfolding process_name kernel
name_before_zero = refl

root_is_privileged : is_privileged kernel ≡ true
unfolding is_privileged kernel
root_is_privileged = refl

-- A kernel without the table.
abbrev silent : Sysctl
silent = record {
  table_size = λ is_udp. none;
  fetch_table = λ is_udp n. none;
  short_name = λ pid. none;
  effective_uid = 0;
}

abbrev after : Endpoints
after = (record { ip = tun; port = 12345; is_udp = false }, (4242, 0)) ∷ []

first_resolution :
    resolve_pid 0 kernel [] (at tun 12345) (at (ip 8 8 8 8) 443) false ≡ some (after, some 4242)
unfolding resolve_pid resolve_anew pcblist_table kernel cached remember scan_pcblist scan_loop
    read_u32_le
first_resolution = refl

empty_cache : cached 0 (record { ip = tun; port = 12345; is_udp = false }) [] ≡ none
unfolding cached
empty_cache = refl

v4_netmasks :
    (netmask_v4 0 ≡ some 0)
    × (netmask_v4 1 ≡ some (2 ^ 31))
    × (netmask_v4 24 ≡ some 0xffff_ff00)
    × (netmask_v4 32 ≡ some 0xffff_ffff)
unfolding netmask_v4
v4_netmasks = (refl, refl, refl, refl)

v6_netmasks : (netmask_v6 1 ≡ some (2 ^ 127)) × (netmask_v6 64 ≡ some (2 ^ 128 - 2 ^ 64))
unfolding netmask_v6
v6_netmasks = (refl, refl)

v4_sockaddr_embeds_address :
    v4_sockaddr 0x0a3f0701 ≡ record { len = 16; family = 2; addr = 10 ∷ 63 ∷ 7 ∷ 1 ∷ [] }
unfolding v4_sockaddr
v4_sockaddr_embeds_address = refl

-- The lines of `route -n get`, with a line feed between them.
abbrev shell : Shell
shell = record {
  route = λ arguments. some (record {
    code = some 0;
    stdout = codes "   route to: 8.8.8.8" ++ 10 ∷ codes "  interface: en0" ++ 10 ∷ [];
    stderr = [];
  });
  if_nametoindex = λ name. if text_eq name (codes "en0") then 4 else 0;
  if_indextoname = λ index. none;
  show = λ a. [];
}

finds_the_interface : best_route_index shell (v4 7) ≡ some 4
unfolding best_route_index text_eq
finds_the_interface = refl

route_answers :
    (read_add (some (record { code = some 1; stdout = []; stderr = codes "add: File exists" }))
      ≡ existed)
    × (read_add (some (record { code = some 64; stdout = []; stderr = [] })) ≡ failed)
    × (read_delete (some (record { code = some 1; stdout = []; stderr = codes "not in table" }))
        ≡ true)
unfolding read_add read_delete
route_answers = (refl, refl, refl)

-- Another tunnel holds 0.0.0.0/1 on its interface 9.
abbrev held : Route
held = record { ifindex = 9; dest = v4 0; prefix = 1 }

unfoldable busy : NetHost
unfolding names
busy = record {
  device = ok 7;
  add_address = λ a p. true;
  link_up = λ m. true;
  add_route = λ r. if names (handle r) held then existed else added;
  deletes = λ x. true;
}

abbrev wired : PhysicalInterface
wired = record { v4_index = some 4; v6_index = none }

create-removal_example :
    (remove_routes busy (create busy false wired (held ∷ [])).0).table
    ≡ less busy (claimed busy false wired) (held ∷ [])
unfolding busy
create-removal_example = create-removal busy false wired (held ∷ []) (λ x. refl)

-- Its route is gone when this tunnel is.
loses_a_foreign_route : less busy (claimed busy false wired) (held ∷ []) ≡ []
unfolding less present busy planned_routes prepare delete_route names
loses_a_foreign_route = refl

-- The kernel refuses everything, and a loopback destination asks it for nothing.
loopback_destinations_are_not_pinned :
    (pin_socket (λ s. false) 0xDEAD (v4 (127 * 2 ^ 24 + 1)) [] ≡ some [])
    × (pin_socket (λ s. false) 0xDEAD (v6 1) [] ≡ some [])
    × (pin_socket (λ s. false) 0xDEAD (v6 2) [] ≡ none)
    × (pin_socket (λ s. true) 7 (v6 2) []
        ≡ some (record { name = ipv6_bound_if; value = pos 7 } ∷ []))
unfolding pin_socket
loopback_destinations_are_not_pinned = (refl, refl, refl, refl)

abbrev utun : Utun
utun = record {
  socket = Device.done tt;
  control_id = λ name. Device.done 2;
  connect = λ id unit. Device.done tt;
  interface_name = Device.done (codes "utun4");
  set_nonblocking = true;
  if_nametoindex = λ name. 11;
}

opens_utun :
    (open_device utun ≡ ok 11)
    × (open_device (record utun { connect = λ id unit. Device.failed permission_denied })
        ≡ err Error.not_elevated)
    × (open_device (record utun { control_id = λ name. Device.failed permission_denied })
        ≡ err (Error.net_config (codes "CTLIOCGINFO")))
    × (open_device (record utun { interface_name = Device.done (codes "en0") })
        ≡ err (Error.net_config (codes "UTUN_OPT_IFNAME")))
unfolding open_device
opens_utun = (refl, refl, refl, refl)
