-- ===== src/Netstack/Decide.antt =====
-- src/netstack.rs: `decide`. `none` is a panic of the rule set's name comparison.
pub mod Order
pub mod Outcome
use ace_tun.Base.{
  ℕ, Bool, true, false, not, ◌&&◌, ◌||◌, Option, none, some, ◌==◌, if◌then◌else◌, ◌>>=◌, is_none,
}
use ace_tun.Text.{Text}
use ace_tun.Addr.{IpAddr, v4, v6, SocketAddr, is_loopback, is_multicast, is_broadcast}
use ace_tun.Platform.{index_for}
use ace_tun.Rule.{RuleAction}
use ace_tun.Rule.Glob.{RegexCrate}
use ace_tun.Rule.Evaluate.{RuleMatch, Connection, evaluate}
use ace_tun.State.{Shared, QuicPolicy, drop_quic, allow_quic, iface}

pub data Decision : Type 0 where
  direct : Decision
  proxy : ℕ → Decision
  block : Decision

pub record FlowFacts : Type 0 where
  pub dest : SocketAddr
  pub is_udp : Bool
  pub pid : Option ℕ
  pub process_name : Text
  pub domain : Option Text

unfoldable pub is_group_address : IpAddr → Bool
unfolding is_multicast is_broadcast
is_group_address (v4 a) = is_multicast (v4 a) || is_broadcast a
is_group_address (v6 a) = is_multicast (v6 a)

is_pid : Option ℕ → ℕ → Bool
is_pid none p = false
is_pid (some q) p = q == p

unfoldable pub drops_quic : QuicPolicy → Bool
drops_quic drop_quic = true
drops_quic allow_quic = false

unfoldable pub by_action : RuleMatch → Decision
by_action m = elim m.action [
  | RuleAction.direct ↦ direct
  | RuleAction.block ↦ block
  | RuleAction.proxy ↦ proxy m.proxy_config_id
]

abbrev pub connection : FlowFacts → Connection
connection f = record {
  process_name = f.process_name;
  dest = f.dest.ip;
  dest_port = f.dest.port;
  is_udp = f.is_udp;
  domain = f.domain;
}

module _ (rx : RegexCrate) where
  abbrev pub State : Type 0
  State = Shared rx.Regex

  -- The engine's own flow.
  unfoldable pub is_own : State → FlowFacts → Bool
  unfolding is_pid
  is_own s f = is_pid f.pid s.current_pid

  -- UDP on the QUIC port under the policy `Drop`.
  unfoldable pub is_dropped_quic : State → FlowFacts → Bool
  unfolding drops_quic
  is_dropped_quic s f = f.is_udp && f.dest.port == s.quic_port && drops_quic s.quic_policy

  unfoldable pub decide : State → FlowFacts → Option Decision
  unfolding is_own is_dropped_quic by_action iface index_for
  decide s f =
      if is_own s f
      then some (
          if not (is_loopback f.dest.ip) && is_none (index_for (iface s) f.dest.ip)
          then block
          else direct)
      else if is_loopback f.dest.ip && not s.localhost_via_proxy
      then some direct
      else if is_group_address f.dest.ip
      then some block
      else if is_dropped_quic s f
      then some block
      else do m ← evaluate rx s.rules (connection f); some (by_action m)
