-- ===== src/State.antt =====
-- src/state.rs: the engine's shared state and its counters.
use ace_tun.Base.{ℕ, ◌+◌, ◌%◌, ◌^◌, Bool, Option, none, some, List, [], ◌∷◌, ◌==◌, find?}
use ace_tun.Config.{ProxyConfig}
use ace_tun.Dns.{DnsCache}
use ace_tun.Platform.{PhysicalInterface, no_interface}
use ace_tun.Rule.Compile.{RuleSet}

pub data QuicPolicy : Type 0 where
  drop_quic allow_quic : QuicPolicy

-- 64-bit counters.
pub record Stats : Type 0 where
  pub tcp_flows : ℕ
  pub udp_flows : ℕ
  pub blocked : ℕ
  pub quic_dropped : ℕ
  pub proxy_fallbacks : ℕ
  pub group_dropped : ℕ
  pub udp_send_errors : ℕ

unfoldable pub no_stats : Stats
no_stats = record {
  tcp_flows = 0;
  udp_flows = 0;
  blocked = 0;
  quic_dropped = 0;
  proxy_fallbacks = 0;
  group_dropped = 0;
  udp_send_errors = 0;
}

-- `fetch_add(1)`, which wraps.
unfoldable pub add_one : ℕ → ℕ
add_one n = (n + 1) % 2 ^ 64

-- The callbacks are only asked whether they are set: what they do is the caller's.
pub record Shared (Regex : Type 0) : Type 0 where
  pub rules : RuleSet Regex
  pub proxy_configs : List ProxyConfig
  pub dns_cache : DnsCache
  pub localhost_via_proxy : Bool
  pub quic_port : ℕ
  pub quic_policy : QuicPolicy
  pub current_pid : ℕ
  pub iface : Option PhysicalInterface
  pub stats : Stats
  pub log_cb : Bool
  pub conn_cb : Bool
  pub running : Bool

or_none : Option PhysicalInterface → PhysicalInterface
or_none none = no_interface
or_none (some i) = i

unfoldable pub iface : {Regex : Type 0} → Shared Regex → PhysicalInterface
unfolding or_none no_interface
iface s = or_none s.iface

unfoldable pub or_first : Option ProxyConfig → List ProxyConfig → Option ProxyConfig
or_first (some c) cs = some c
or_first none [] = none
or_first none (c ∷ cs) = some c

unfoldable pub find_proxy_config : {Regex : Type 0} → Shared Regex → ℕ → Option ProxyConfig
unfolding or_first
find_proxy_config s id = or_first (find? (λ c. c.config_id == id) s.proxy_configs) s.proxy_configs

unfoldable pub snapshot : {Regex : Type 0} → Shared Regex → Stats
snapshot s = s.stats
