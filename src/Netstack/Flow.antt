-- ===== src/Netstack/Flow.antt =====
-- src/netstack.rs: attribution, the connection callback, and the handler of a TCP flow. What the
-- handler does to the outside is a trace of events; what it learns from there is a `Host`.
pub mod Tcp
pub mod Udp
pub mod Accept
use ace_tun.Base.{
  ℕ, Bool, true, false, ◌&&◌, Option, none, some, List, [], ◌∷◌, ◌++◌, if◌then◌else◌, ◌>>=◌,
}
use ace_tun.Text.{Text, codes, to_ascii_lowercase}
use ace_tun.Text.Decimal.{decimal}
use ace_tun.Addr.{IpAddr, SocketAddr}
use ace_tun.Config.{ProxyConfig}
use ace_tun.Config.Kind.{ProxyType}
use ace_tun.Dns.{DnsCache, lookup}
use ace_tun.Platform.{PhysicalInterface}
use ace_tun.Proxy.Target.{Target}
use ace_tun.Proxy.Stream.{ok, err, panic}
use ace_tun.Proxy.Http.{HttpCrates}
use ace_tun.Proxy.Connect.{Upstream, connect_via_proxy}
use ace_tun.Rule.{RuleAction}
use ace_tun.Rule.Glob.{RegexCrate}
use ace_tun.Rule.Compile.{needs_domain_resolution}
use ace_tun.State.{Shared, Stats, add_one, iface, find_proxy_config}
use ace_tun.Netstack.Decide.{Decision, direct, proxy, block, FlowFacts, State, decide}

-- src/callback.rs, `ConnectionInfo`.
pub record ConnectionInfo : Type 0 where
  pub process_name : Text
  pub pid : ℕ
  pub dest_ip : IpAddr
  pub dest_port : ℕ
  pub action : RuleAction
  pub proxy_info : Text

pub data Event : Type 0 where
  -- The connection callback was called.
  reported : ConnectionInfo → Event
  -- The log callback was called.
  logged : Event
  -- A socket was opened to the destination itself, with the interface to pin it to.
  dialed : SocketAddr → PhysicalInterface → Event
  -- The upstream proxy was asked for a tunnel.
  tunneled : ProxyConfig → Target → Event
  -- Bytes were copied both ways.
  relayed : Event
  -- The intercepted stream was dropped, or shut down.
  dropped : Event
  shut_down : Event

-- What the operating system and the network answer.
pub record Host : Type 0 where
  pub resolve_pid : SocketAddr → SocketAddr → Bool → Option ℕ
  pub process_name : ℕ → Option Text
  pub dial : SocketAddr → PhysicalInterface → Bool
  pub crates : HttpCrates
  pub upstream : ProxyConfig → Target → Upstream
  pub relay : Bool

-- `connect_via_proxy` gave `Ok`. It does not panic where what the proxy sends are bytes.
unfoldable pub connects : Host → ProxyConfig → Target → Bool
unfolding connect_via_proxy
connects h c target = elim (connect_via_proxy h.crates (h.upstream c target) c target) [
  | ok u ↦ true
  | err e ↦ false
  | panic ↦ false
]

name_or_empty : Option Text → Text
name_or_empty none = []
name_or_empty (some n) = to_ascii_lowercase n

unfoldable pub attribute : Host → SocketAddr → SocketAddr → Bool → Option ℕ × Text
unfolding name_or_empty to_ascii_lowercase
attribute h src dest is_udp =
    let pid = h.resolve_pid src dest is_udp in (pid, name_or_empty (pid >>= h.process_name))

proxy_type_name : ProxyType → Text
proxy_type_name ProxyType.http = codes "Http"
proxy_type_name ProxyType.socks5 = codes "Socks5"

describe_proxy : Option ProxyConfig → Text
describe_proxy none = codes "Proxy (unconfigured)"
describe_proxy (some c) =
    codes "Proxy "
    ++ (proxy_type_name c.proxy_type ++ (codes "://" ++ (c.host ++ (codes ":" ++ decimal c.port))))

or_zero : Option ℕ → ℕ
or_zero none = 0
or_zero (some n) = n

-- How a handler ends: the state, what it did, and whether it returned `Ok`.
pub record FlowEnd (Regex : Type 0) : Type 0 where
  pub shared : Shared Regex
  pub trace : List Event
  pub is_ok : Bool

module _ (rx : RegexCrate) where
  unfoldable pub domain_for : ℕ → State rx → IpAddr → Option Text
  unfolding needs_domain_resolution lookup
  domain_for now s dest =
      if needs_domain_resolution s.rules then lookup now s.dns_cache dest else none

  unfoldable pub facts_of : Host → ℕ → State rx → SocketAddr → SocketAddr → Bool → FlowFacts
  unfolding attribute domain_for
  facts_of h now s src dest is_udp =
      let (pid, process_name) = attribute h src dest is_udp in
      record {
        dest = dest;
        is_udp = is_udp;
        pid = pid;
        process_name = process_name;
        domain = domain_for now s dest.ip;
      }

  unfoldable pub action_of : Decision → RuleAction
  action_of direct = RuleAction.direct
  action_of block = RuleAction.block
  action_of (proxy id) = RuleAction.proxy

  info_of : State rx → Decision → Text
  info_of s direct = codes "Direct"
  info_of s block = codes "Blocked"
  info_of s (proxy id) = describe_proxy (find_proxy_config s id)

  unfoldable pub report : State rx → FlowFacts → Decision → List Event
  unfolding action_of info_of describe_proxy proxy_type_name or_zero find_proxy_config decimal
  report s f d =
      if s.conn_cb
      then reported (record {
        process_name = f.process_name;
        pid = or_zero f.pid;
        dest_ip = f.dest.ip;
        dest_port = f.dest.port;
        action = action_of d;
        proxy_info = info_of s d;
      })
        ∷ []
      else []

  unfoldable pub log : State rx → List Event
  log s = if s.log_cb then logged ∷ [] else []

  unfoldable pub count_blocked : State rx → State rx
  unfolding add_one
  count_blocked s = record s { stats = record s.stats { blocked = add_one s.stats.blocked } }

  unfoldable pub count_fallback : State rx → State rx
  unfolding add_one
  count_fallback s = record s {
    stats = record s.stats { proxy_fallbacks = add_one s.stats.proxy_fallbacks };
  }

  -- A flow that must be proxied and cannot be.
  unfoldable pub fail_closed : State rx → List Event → FlowEnd rx.Regex
  unfolding count_blocked count_fallback log
  fail_closed s trace = record {
    shared = count_blocked (count_fallback s);
    trace = trace ++ (log s ++ shut_down ∷ []);
    is_ok = true;
  }

  target_for : ProxyConfig → Option Text → SocketAddr → Target
  target_for c none dest = Target.ip dest.ip dest.port
  target_for c (some d) dest =
      if c.send_domain_to_proxy then Target.domain d dest.port else Target.ip dest.ip dest.port

  unfoldable pub relay_proxied :
      Host → State rx → List Event → ProxyConfig → Target → FlowEnd rx.Regex
  unfolding fail_closed
  relay_proxied h s trace c target =
      let asked : List Event = trace ++ tunneled c target ∷ [] in
      if connects h c target
      then record { shared = s; trace = asked ++ relayed ∷ []; is_ok = h.relay }
      else fail_closed s asked

  serve_proxied : Host → State rx → FlowFacts → List Event → Option ProxyConfig → FlowEnd rx.Regex
  serve_proxied h s f trace none = fail_closed s trace
  serve_proxied h s f trace (some c) = relay_proxied h s trace c (target_for c f.domain f.dest)

  unfoldable pub serve_tcp : Host → State rx → FlowFacts → List Event → Decision → FlowEnd rx.Regex
  unfolding serve_proxied target_for relay_proxied find_proxy_config iface
  serve_tcp h s f trace block = record {
    shared = count_blocked s;
    trace = trace ++ dropped ∷ [];
    is_ok = true;
  }
  serve_tcp h s f trace direct =
      let dialing : List Event = trace ++ dialed f.dest (iface s) ∷ [] in
      if h.dial f.dest (iface s)
      then record { shared = s; trace = dialing ++ relayed ∷ []; is_ok = h.relay }
      else record { shared = s; trace = dialing; is_ok = false }
  serve_tcp h s f trace (proxy id) = serve_proxied h s f trace (find_proxy_config s id)

  unfoldable pub handle_tcp :
      Host → ℕ → State rx → SocketAddr → SocketAddr → Option (FlowEnd rx.Regex)
  unfolding facts_of report serve_tcp decide
  handle_tcp h now s src dest =
      let f = facts_of h now s src dest false in
      decide rx s f >>= λ d. some (serve_tcp h s f (report s f d) d)
