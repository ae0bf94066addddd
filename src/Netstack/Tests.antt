-- ===== src/Netstack/Tests.antt =====
-- Flows on concrete input: an engine with one proxy, a host whose proxy refuses, and the theorems
-- applied to them.
use ace_tun.Base.{
  ℕ, ◌+◌, ◌%◌, ◌^◌, Bool, true, false, none, some, List, [], ◌∷◌, ◌++◌, ◌≡◌, refl, arith, All,
}
use ace_tun.Text.{Text, codes, text_eq}
use ace_tun.Addr.{v4, SocketAddr, is_loopback}
use ace_tun.Config.{ProxyConfig}
use ace_tun.Config.Kind.{ProxyType}
use ace_tun.Dns.{new}
use ace_tun.Rule.{RuleAction, RuleProtocol}
use ace_tun.Proxy.Connect.{Upstream}
use ace_tun.Rule.Glob.{RegexCrate, strip_exe_suffix}
use ace_tun.Rule.Evaluate.{evaluate}
use ace_tun.State.{drop_quic, no_stats, iface}
use ace_tun.Netstack.Decide.{proxy, block, FlowFacts, State, decide, is_group_address, by_action}
use ace_tun.Dial.{Attempt, Kernel}
use ace_tun.Netstack.Decide.Outcome.{IsCandidate, Redirects, IsBlocked, decide_iff}
use ace_tun.Base.{◌↔◌}
use ace_tun.Netstack.Flow.{
  Host, FlowEnd, facts_of, count_blocked, count_fallback, handle_tcp, connects,
}
use ace_tun.Netstack.Flow.Tcp.{
  Closed, Permitted, handle_tcp-Permitted, handle_tcp_unreachable_proxy,
}
use ace_tun.Netstack.Flow.Accept.{Accepted, tcp_stream, udp_stream, shut_down, run}
use ace_tun.Netstack.Flow.Accept.Order.{before_end, tasks_of, tcp_count, udp_count, run-tasks_of}
use ace_tun.Addr.{ip_eq}
use ace_tun.Dns.Parse.{parse_dns_answers}
use ace_tun.Rule.Compile.{needs_domain_resolution}
use ace_tun.Netstack.Flow.Udp.Snoop.{udp_round-domain}
use ace_tun.Netstack.Flow.Udp.{UdpEvent, from_client, from_server, Relay, udp_loop, udp_round}

abbrev exact : RegexCrate
exact = record { Regex = Text; escape = λ t. t; new = λ t. some t; is_match = text_eq }

abbrev upstream : ProxyConfig
upstream = record {
  config_id = 1;
  proxy_type = ProxyType.socks5;
  host = codes "10.0.0.1";
  port = 1080;
  username = none;
  password = none;
  send_domain_to_proxy = false;
}

-- A catch-all rule: everything through the proxy 1.
abbrev engine : State exact
engine = record {
  rules = record {
    rules =
        record {
          process_matchers = [];
          process_wildcard = true;
          hosts = codes "*";
          hosts_all = true;
          ports = codes "*";
          ports_all = true;
          domain_matchers = [];
          domains_all = true;
          except_hosts = none;
          protocol = RuleProtocol.both;
          action = RuleAction.proxy;
          proxy_config_id = 1;
        }
        ∷ [];
    has_domain_rules = false;
  };
  proxy_configs = upstream ∷ [];
  dns_cache = new 300;
  localhost_via_proxy = false;
  quic_port = 443;
  quic_policy = drop_quic;
  current_pid = 7;
  iface = some (record { v4_index = some 4; v6_index = none });
  stats = no_stats;
  log_cb = true;
  conn_cb = true;
  running = true;
}

abbrev refusing : Upstream
refusing = record {
  connects = false;
  http_stream = record { reads = []; sent = []; takes_write = true };
  socks_stream = record { input = []; sent = []; writes = [] };
  in_time = true;
}

-- The owner of every flow is the process given; the proxy refuses.
abbrev owned_by : ℕ → Host
owned_by pid = record {
  resolve_pid = λ src dest is_udp. some pid;
  process_name = λ p. some (codes "curl");
  dial = λ dest i. true;
  crates = record { encode = λ t. t; show_ip = λ a. [] };
  upstream = λ c t. refusing;
  relay = true;
}

abbrev client : SocketAddr
client = record { ip = v4 0x0a3f0702; port = 50000 }

abbrev server : SocketAddr
server = record { ip = v4 0x01020304; port = 443 }

abbrev group : SocketAddr
group = record { ip = v4 0xe0000001; port = 5353 }

abbrev flow : ℕ → SocketAddr → Bool → FlowFacts
flow pid dest is_udp = record {
  dest = dest;
  is_udp = is_udp;
  pid = some pid;
  process_name = codes "curl";
  domain = none;
}

-- A kernel that names every interface `eth`.
abbrev kernel : Kernel
kernel = record {
  opens = λ is_v4. true;
  if_indextoname = λ i. some (codes "eth");
  bind_to_device = λ n. true;
  takes_nodelay = true;
  takes_send_buffer = λ n. true;
  connect = λ socket dest. Attempt.accepted;
}

curl_stripped : strip_exe_suffix (codes "curl") ≡ some (codes "curl")
unfolding strip_exe_suffix
curl_stripped = refl

decide_iff_example :
    ((decide exact engine (flow 9 server false) ≡ some (proxy 1)) ↔ (
      IsCandidate exact engine (flow 9 server false)
      × Redirects exact engine (flow 9 server false) (codes "curl") 1))
    × ((decide exact engine (flow 9 server false) ≡ some block)
        ↔ IsBlocked exact engine (flow 9 server false) (codes "curl"))
decide_iff_example = decide_iff exact engine (flow 9 server false) 1 curl_stripped

proxied_through_1 : decide exact engine (flow 9 server false) ≡ some (proxy 1)
unfolding decide by_action is_loopback is_group_address evaluate
proxied_through_1 = refl

is_proxied :
    decide exact engine (facts_of exact (owned_by 9) 0 engine client server false) ≡ some (proxy 1)
unfolding decide facts_of by_action is_loopback is_group_address evaluate
is_proxied = refl

handle_tcp-Permitted_example :
    (e : FlowEnd Text) × (handle_tcp exact (owned_by 9) 0 engine client server ≡ some e)
    × All
        (Permitted exact engine
          (facts_of exact (owned_by 9) 0 engine client server false)
          (proxy 1))
        e.trace
handle_tcp-Permitted_example =
    handle_tcp-Permitted exact (owned_by 9) 0 engine client server (proxy 1) is_proxied

handle_tcp_unreachable_proxy_example :
    (e : FlowEnd Text) × (handle_tcp exact (owned_by 9) 0 engine client server ≡ some e)
    × (e.shared ≡ count_blocked exact (count_fallback exact engine))
    × (e.is_ok ≡ true)
    × All Closed e.trace
unfolding connects
handle_tcp_unreachable_proxy_example =
    handle_tcp_unreachable_proxy exact (owned_by 9) 0 engine client server 1 is_proxied
      (λ c t found. refl)

abbrev accepted : List Accepted
accepted = tcp_stream client server ∷ shut_down ∷ udp_stream client server ∷ []

run-tasks_of_example :
    ((run exact engine [] accepted).1 ≡ [] ++ tasks_of (before_end accepted))
    × ((run exact engine [] accepted).0.stats.tcp_flows
        ≡ (engine.stats.tcp_flows + tcp_count (tasks_of (before_end accepted))) % 2 ^ 64)
    × ((run exact engine [] accepted).0.stats.udp_flows
        ≡ (engine.stats.udp_flows + udp_count (tasks_of (before_end accepted))) % 2 ^ 64)
unfolding no_stats
run-tasks_of_example = run-tasks_of exact engine [] accepted (omega arith) (omega arith)

abbrev fresh : Relay Text
fresh = record { shared = engine; sent = []; written = []; over = false }

-- A failed send between two datagrams.
abbrev datagrams : List (ℕ × UdpEvent)
datagrams =
    (1, from_client (1 ∷ []) true)
    ∷ (2, from_client (2 ∷ []) false)
    ∷ (3, from_server (3 ∷ []) true)
    ∷ []

-- A read of no bytes ends the flow.
empty_read_ends :
    udp_loop true fresh ((1, from_client [] true) ∷ (2, from_client (1 ∷ []) true) ∷ [])
    ≡ some (record fresh { over = true })
unfolding udp_loop
empty_read_ends = refl

-- The response to a question for x.com, with the address 1.2.3.4.
abbrev dns_response : List ℕ
dns_response =
    0x12 ∷ 0x34 ∷ 0x81 ∷ 0x80 ∷ 0 ∷ 1 ∷ 0 ∷ 1 ∷ 0 ∷ 0 ∷ 0 ∷ 0 ∷ 1 ∷ b'x' ∷ 3 ∷ b'c' ∷ b'o' ∷ b'm'
    ∷ 0 ∷ 0 ∷ 1 ∷ 0 ∷ 1 ∷ 0xc0 ∷ 12 ∷ 0 ∷ 1 ∷ 0 ∷ 1 ∷ 0 ∷ 0 ∷ 1 ∷ 0x2c ∷ 0 ∷ 4 ∷ 1 ∷ 2 ∷ 3 ∷ 4 ∷ []

abbrev by_domain : Relay Text
by_domain = record fresh {
  shared = record engine { rules = record engine.rules { has_domain_rules = true } };
}

abbrev site : SocketAddr
site = record { ip = v4 0x01020304; port = 443 }

response_parsed : parse_dns_answers dns_response ≡ some ((v4 0x01020304, codes "x.com") ∷ [])
unfolding parse_dns_answers
response_parsed = refl

by_domain_needs : needs_domain_resolution by_domain.shared.rules ≡ true
unfolding needs_domain_resolution
by_domain_needs = refl

udp_round-domain_example :
    (q : Relay Text) × (udp_round true 1000 by_domain (from_server dns_response true) ≡ some q)
    × ((facts_of exact (owned_by 9) 1200 q.shared client site false).domain ≡ some (codes "x.com"))
unfolding new ip_eq
udp_round-domain_example =
    udp_round-domain exact 1000 1200 by_domain dns_response true
      ((v4 0x01020304, codes "x.com") ∷ []) response_parsed refl by_domain_needs (owned_by 9) client
      site false
