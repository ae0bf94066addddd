-- ===== src/Rule.antt =====
-- src/rule.rs: routing rules, their compilation and the evaluation of a connection.
pub mod Pattern
pub mod Glob
pub mod Compile
pub mod Evaluate
mod Tests
use ace_tun.Base.{ℕ, Bool, true, not, Option, none, some}
use ace_tun.Text.{Text, codes}

pub data RuleAction : Type 0 where
  proxy direct block : RuleAction

pub data RuleProtocol : Type 0 where
  tcp udp both : RuleProtocol

unfoldable pub matches : RuleProtocol → Bool → Bool
matches both is_udp = true
matches tcp is_udp = not is_udp
matches udp is_udp = is_udp

pub record Rule : Type 0 where
  pub process_names : Text
  pub hosts : Text
  pub ports : Text
  pub domains : Text
  pub except_hosts : Option Text
  pub protocol : RuleProtocol
  pub action : RuleAction
  pub proxy_config_id : ℕ

unfoldable pub new : Text → Rule
new process_names = record {
  process_names = process_names;
  hosts = codes "*";
  ports = codes "*";
  domains = codes "*";
  except_hosts = none;
  protocol = both;
  action = direct;
  proxy_config_id = 0;
}

unfoldable pub hosts : Rule → Text → Rule
hosts r t = record r { hosts = t }

unfoldable pub ports : Rule → Text → Rule
ports r t = record r { ports = t }

unfoldable pub domains : Rule → Text → Rule
domains r t = record r { domains = t }

unfoldable pub except : Rule → Text → Rule
except r t = record r { except_hosts = some t }

unfoldable pub protocol : Rule → RuleProtocol → Rule
protocol r p = record r { protocol = p }

unfoldable pub action : Rule → RuleAction → Rule
action r a = record r { action = a }

unfoldable pub proxy_config : Rule → ℕ → Rule
proxy_config r id = record r { proxy_config_id = id }

unfoldable pub action_kind : Rule → RuleAction
action_kind r = r.action
