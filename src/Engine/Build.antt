-- ===== src/Engine/Build.antt =====
-- src/lib.rs: `TunRedirectBuilder`. `none` is a panic of the rules' compilation; the parser and the
-- display of addresses are the standard library's, and parameters.
pub mod Ids
use ace_tun.Base.{
  ℕ, ◌+◌, ◌%◌, ◌^◌, Bool, true, false, Option, none, some, List, [], ◌∷◌, ◌++◌, if◌then◌else◌,
  is_nil,
}
use ace_tun.Text.{Text}
use ace_tun.Addr.{IpAddr, SocketAddr}
use ace_tun.Config.{ProxyConfig, http, validate}
use ace_tun.Dns.{default}
use ace_tun.Error.{Error, Result, ok, err}
use ace_tun.Rule.{Rule}
use ace_tun.Rule.Glob.{RegexCrate}
use ace_tun.Rule.Compile.{RuleSet}
use ace_tun.Rule.Compile
use ace_tun.State.{Shared, QuicPolicy, drop_quic, no_stats}
use ace_tun.Engine.{Engine}

pub record Builder : Type 0 where
  pub proxy_addr : SocketAddr
  pub rules : List Rule
  pub proxy_configs : List ProxyConfig
  pub quic_port : ℕ
  pub quic_policy : QuicPolicy
  pub ipv6 : Bool
  pub localhost_via_proxy : Bool
  pub log_cb : Bool
  pub conn_cb : Bool

abbrev pub default_quic_port : ℕ
default_quic_port = 443

unfoldable pub new : SocketAddr → Builder
new addr = record {
  proxy_addr = addr;
  rules = [];
  proxy_configs = [];
  quic_port = default_quic_port;
  quic_policy = drop_quic;
  ipv6 = true;
  localhost_via_proxy = false;
  log_cb = false;
  conn_cb = false;
}

or_invalid : Text → Option SocketAddr → Result Builder
unfolding new
or_invalid input none = err (Error.invalid_address input)
or_invalid input (some addr) = ok (new addr)

-- `TunRedirect::builder`.
unfoldable pub builder : (Text → Option SocketAddr) → Text → Result Builder
unfolding or_invalid
builder parse input = or_invalid input (parse input)

unfoldable pub add_rule : Builder → Rule → Builder
add_rule b r = record b { rules = b.rules ++ r ∷ [] }

unfoldable pub add_rules : Builder → List Rule → Builder
add_rules b rs = record b { rules = b.rules ++ rs }

unfoldable pub proxy_config : Builder → ProxyConfig → Builder
proxy_config b c = record b { proxy_configs = b.proxy_configs ++ c ∷ [] }

unfoldable pub quic_port : Builder → ℕ → Builder
quic_port b port = record b { quic_port = port }

unfoldable pub quic_policy : Builder → QuicPolicy → Builder
quic_policy b policy = record b { quic_policy = policy }

unfoldable pub ipv6 : Builder → Bool → Builder
ipv6 b enable = record b { ipv6 = enable }

unfoldable pub localhost_via_proxy : Builder → Bool → Builder
localhost_via_proxy b enable = record b { localhost_via_proxy = enable }

unfoldable pub on_log : Builder → Builder
on_log b = record b { log_cb = true }

unfoldable pub on_connection : Builder → Builder
on_connection b = record b { conn_cb = true }

with_default : (IpAddr → Text) → Builder → List ProxyConfig
unfolding http
with_default show b =
    if is_nil b.proxy_configs
    then http (show b.proxy_addr.ip) b.proxy_addr.port ∷ []
    else b.proxy_configs

-- The configuration at an index gets its id, and is validated.
unfoldable pub with_id : ℕ → ProxyConfig → ProxyConfig
with_id i c = record c { config_id = (i + 1) % 2 ^ 32 }

cons_ok : ProxyConfig → Result (List ProxyConfig) → Result (List ProxyConfig)
cons_ok c (ok cs) = ok (c ∷ cs)
cons_ok c (err e) = err e

unfoldable pub assign_ids : ℕ → List ProxyConfig → Result (List ProxyConfig)
unfolding with_id cons_ok validate
assign_ids i [] = ok []
assign_ids i (c ∷ cs) =
    let rest = assign_ids (i + 1) cs in
    elim (validate (with_id i c)) [ ok u ↦ cons_ok (with_id i c) rest | err e ↦ err e ]

module _ (rx : RegexCrate) where
  unfoldable pub engine_of : Builder → ℕ → List ProxyConfig → RuleSet rx.Regex → Engine rx.Regex
  unfolding default no_stats
  engine_of b pid cs rules = record {
    shared = record {
      rules = rules;
      proxy_configs = cs;
      dns_cache = default;
      localhost_via_proxy = b.localhost_via_proxy;
      quic_port = b.quic_port;
      quic_policy = b.quic_policy;
      current_pid = pid;
      iface = none;
      stats = no_stats;
      log_cb = b.log_cb;
      conn_cb = b.conn_cb;
      running = false;
    };
    ipv6 = b.ipv6;
    running = none;
    routed = false;
  }

  with_rules :
      Builder → ℕ → List ProxyConfig → Option (RuleSet rx.Regex) → Option (Result (Engine rx.Regex))
  unfolding engine_of
  with_rules b pid cs none = none
  with_rules b pid cs (some rules) = some (ok (engine_of b pid cs rules))

  unfoldable pub build : (IpAddr → Text) → ℕ → Builder → Option (Result (Engine rx.Regex))
  unfolding with_default assign_ids with_rules Compile.new
  build show pid b = elim (assign_ids 0 (with_default show b)) [
    | err e ↦ some (err e)
    | ok cs ↦ with_rules b pid cs (Compile.new rx b.rules)
  ]
