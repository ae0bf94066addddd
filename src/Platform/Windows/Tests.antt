-- ===== src/Platform/Windows/Tests.antt =====
-- src/platform/windows: the tests of process.rs and dial.rs, and the theorem applied to concrete
-- input.
use ace_tun.Base.{
  length, ltb, ◌==◌, if◌then◌else◌, Bool, Bool-cases, ◌||◌, inl, inr, ap, sym, ◌∙◌, ℕ, ◌+◌, ◌*◌,
  ◌^◌, true, false, Option, none, some, List, [], ◌∷◌, map, ◌≡◌, refl, arith,
}
use ace_tun.Base.Words.{from_le}
use ace_tun.Text.{codes, text_eq}
use ace_tun.Addr.{v4, v6, octets}
use ace_tun.Error.{Error, Result, ok, err}
use ace_tun.Platform.Windows.Netcfg.{
  System, no_error, other, sockaddr_inet, ipv4, ipv6, add_route, add_address, set_interface_metric,
  delete_route,
}
use ace_tun.Platform.Windows.Adapter.{
  Dll, TunAdapter, create, install, drop_adapter, load_wintun, is_elevated,
}
use ace_tun.Platform.Windows.Adapter.Restore.{Restores, DropsBound, create-Restores}
use ace_tun.Platform.Windows.Dial.{
  ip_unicast_if, ipv6_unicast_if, pin_socket, unicast_if_value, to_be,
}
use ace_tun.Platform.Windows.Process.{
  Row, table_port_to_host, file_name, resolve_pid_udp_v4, resolve_pid_udp_v6, fetch_table,
  first_row, any_v6,
}
use ace_tun.Platform.Windows.Process.Rows.{Socket, row_of, resolve_pid_udp_v4-rows}

extracts_file_name :
    (file_name (codes "C:\\Windows\\chrome.exe") ≡ codes "chrome.exe")
    × (file_name (codes "/usr/bin/firefox") ≡ codes "firefox")
    × (file_name (codes "notepad.exe") ≡ codes "notepad.exe")
    × (file_name [] ≡ [])
unfolding file_name
extracts_file_name = (refl, refl, refl, refl)

port_conversion_is_ntohs : (table_port_to_host 0xBB01 ≡ 443) × (table_port_to_host 0x5000 ≡ 80)
unfolding table_port_to_host
port_conversion_is_ntohs = (refl, refl)

abbrev anywhere : Socket
anywhere = record { addr = 0; port = 53; pid = 11 }

abbrev exact : Socket
exact = record { addr = 10 * 2 ^ 24 + 1; port = 53; pid = 22 }

resolve_pid_udp_v4-rows_example :
    resolve_pid_udp_v4 53
      (record { sizing = 122; filling = 0; rows = map row_of (anywhere ∷ exact ∷ []) })
      (10 * 2 ^ 24 + 1)
    ≡ some 22
resolve_pid_udp_v4-rows_example =
    resolve_pid_udp_v4-rows (anywhere ∷ exact ∷ []) (10 * 2 ^ 24 + 1) 53 (omega arith)
      ((omega arith, omega arith), ((omega arith, omega arith), tt))

abbrev row_v6 : List ℕ → ℕ → Row (List ℕ)
row_v6 addr pid = record { local_addr = addr; local_port = 0x3500; owning_pid = pid }

-- Over IPv6 the socket that is bound to every address takes the flow of the exact one.
any_before_exact_v6 :
    resolve_pid_udp_v6 53
      (record {
        sizing = 122;
        filling = 0;
        rows =
            row_v6 any_v6 11
            ∷ row_v6 (0 ∷ 0 ∷ 0 ∷ 0 ∷ 0 ∷ 0 ∷ 0 ∷ 0 ∷ 0 ∷ 0 ∷ 0 ∷ 0 ∷ 0 ∷ 0 ∷ 0 ∷ 1 ∷ []) 22
            ∷ [];
      })
      1
    ≡ some 11
unfolding resolve_pid_udp_v6 fetch_table first_row text_eq octets
any_before_exact_v6 = refl

v4_unicast_if_is_network_order : unicast_if_value 7 false ≡ 0x07000000
unfolding unicast_if_value to_be from_le
v4_unicast_if_is_network_order = refl

-- The index of IPv4 is in the network's order, the one of IPv6 as it is, and loopback is pinned too.
pinned_to_interface :
    (pin_socket (λ s. true) 7 (v4 (127 * 2 ^ 24 + 1)) []
      ≡ some (record { name = ip_unicast_if; value = 0x07000000 } ∷ []))
    × (pin_socket (λ s. true) 7 (v6 1) []
        ≡ some (record { name = ipv6_unicast_if; value = 7 } ∷ []))
    × (pin_socket (λ s. false) 7 (v6 1) [] ≡ none)
unfolding pin_socket unicast_if_value to_be from_le
pinned_to_interface = (refl, refl, refl)

-- The network is the LUIDs of its entries.
close_luid : ℕ → List ℕ → List ℕ
close_luid luid [] = []
close_luid luid (l ∷ n) = let rest = close_luid luid n in if l == luid then rest else l ∷ rest

-- The first entry of an adapter goes.
delete_first : ℕ → List ℕ → List ℕ
delete_first luid [] = []
delete_first luid (l ∷ n) = let rest = delete_first luid n in if l == luid then n else l ∷ rest

has_luid : ℕ → List ℕ → Bool
has_luid luid [] = false
has_luid luid (l ∷ n) = l == luid || has_luid luid n

close_luid-delete_first :
    (luid : ℕ) (n : List ℕ) → close_luid luid (delete_first luid n) ≡ close_luid luid n
unfolding close_luid delete_first
close_luid-delete_first luid [] = refl
close_luid-delete_first luid (l ∷ n) = ground (arith, close_luid-delete_first luid n)

close_luid_absent : (luid : ℕ) (n : List ℕ) → has_luid luid n ≡ false → close_luid luid n ≡ n
unfolding close_luid has_luid
close_luid_absent luid [] h = refl
close_luid_absent luid (l ∷ n) h = ground (arith, close_luid_absent luid n)

-- A system whose forwarding table takes so many entries; the LUID 7 is free if it has no entry.
abbrev windows : ℕ → System (List ℕ)
windows room = record {
  best_route = λ a n. none;
  create_unicast = λ row n. (row.luid ∷ n, no_error);
  create_forward = λ row n. if ltb (length n) room then (row.luid ∷ n, no_error) else (n, other);
  delete_forward = λ row n. (delete_first row.luid n, no_error);
  get_interface = λ family luid n. some (record {
    family = family;
    luid = luid;
    use_automatic_metric = true;
    metric = 25;
    site_prefix_length = 64;
    rest = 0;
  });
  set_interface = λ row n. (n, no_error);
  create_adapter = λ n. if has_luid 7 n then none else some (7, n);
  set_mtu = λ luid mtu n. (n, true);
  start_session = λ luid capacity n. (n, true);
  shutdown_session = λ luid n. n;
  close = close_luid;
}

close_luid-cons : (luid : ℕ) (n : List ℕ) → close_luid luid (luid ∷ n) ≡ close_luid luid n
unfolding close_luid
close_luid-cons luid n = ground arith

windows-DropsBound : (room : ℕ) → DropsBound (windows room)
windows-DropsBound room = record {
  unicast = λ row n. close_luid-cons row.luid n;
  forward = λ row n. elim (Bool-cases (ltb (length n) room)) [
    | inl fits ↦ rw fits (close_luid-cons row.luid n)
    | inr full ↦ rw full refl
  ];
  deleted = λ row n. close_luid-delete_first row.luid n;
  interface = λ row n. refl;
  mtu = λ luid mtu n. refl;
  session = λ luid capacity n. refl;
  shut = λ luid n. refl;
  made = λ luid n after e. elim (Bool-cases (has_luid 7 n)) [
    | inl taken ↦ cc (rw taken at e)
    | inr free ↦
        let (same, left) = some_pair (rw free at e) in
        ap (λ l. close_luid l after) (sym same)
        ∙ ap (close_luid 7) (sym left)
        ∙ close_luid_absent 7 n free
  ];
}
  where
    some_pair :
        {l m : ℕ} {a b : List ℕ}
        → ◌≡◌ {A = Option (ℕ × List ℕ)} (some (l, a)) (some (m, b))
        → (l ≡ m) × (a ≡ b)
    some_pair e = (cc, cc)

abbrev present : Dll
present = record { is_local = true; loads_local = λ k. k == 3; loads = false }

-- The third route does not fit: the two before it go with the adapter.
create-Restores_example : Restores (windows 5) (3 ∷ []) (create (windows 5) present true (3 ∷ []))
create-Restores_example = create-Restores (windows 5) (windows-DropsBound 5) present true (3 ∷ [])

-- How many routes an adapter holds, and the network after it is dropped.
abbrev dropped : List ℕ × Result TunAdapter → Option (ℕ × List ℕ)
dropped (n, ok adapter) = some (length adapter.routes, drop_adapter (windows 9) adapter n)
dropped (n, err e) = none

third_route_fails :
    create (windows 5) present true (3 ∷ []) ≡ (3 ∷ [], err (Error.net_config (codes "add_route")))
unfolding create close_luid has_luid add_address set_interface_metric install add_route
third_route_fails = refl

dropped_after_success : dropped (create (windows 9) present true (3 ∷ [])) ≡ some (4, 3 ∷ [])
unfolding create close_luid has_luid drop_adapter delete_first add_address set_interface_metric
    install add_route delete_route
dropped_after_success = refl

retries_the_local_file :
    (load_wintun present ≡ ok tt)
    × (load_wintun (record present { loads_local = λ k. k == 6 })
        ≡ err (Error.wintun_load (codes "wintun.dll")))
unfolding load_wintun
retries_the_local_file = (refl, refl)

elevation :
    (is_elevated none ≡ false)
    × (is_elevated (some none) ≡ false)
    × (is_elevated (some (some 1)) ≡ true)
unfolding is_elevated
elevation = (refl, refl, refl)

sockaddr_keeps_the_address :
    (sockaddr_inet (v4 (10 * 2 ^ 24 + 6 * 2 ^ 16 + 7 * 2 ^ 8 + 1)) ≡ ipv4 0 0x0107060a)
    × (sockaddr_inet (v6 1) ≡ ipv6 0 0 (octets 16 1))
unfolding sockaddr_inet
sockaddr_keeps_the_address = (refl, refl)
