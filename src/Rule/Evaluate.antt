-- ===== src/Rule/Evaluate.antt =====
-- src/rule.rs: the evaluation of a connection against a rule set. `none` is a panic.
pub mod Order
pub mod Domains
use ace_tun.Base.{
  ℕ, Bool, true, false, not, ◌&&◌, ◌||◌, Option, none, some, List, [], ◌∷◌, if◌then◌else◌, ◌>>=◌,
  any,
}
use ace_tun.Text.{Text}
use ace_tun.Addr.{IpAddr}
use ace_tun.Rule.{RuleAction, direct, matches}
use ace_tun.Rule.Pattern.{match_ip_list, match_port_list}
use ace_tun.Rule.Glob.{RegexCrate, strip_exe_suffix}
use ace_tun.Rule.Compile.{CompiledRule, RuleSet}

pub record RuleMatch : Type 0 where
  pub action : RuleAction
  pub proxy_config_id : ℕ

-- The arguments of `RuleSet::evaluate`.
pub record Connection : Type 0 where
  pub process_name : Text
  pub dest : IpAddr
  pub dest_port : ℕ
  pub is_udp : Bool
  pub domain : Option Text

unfoldable pub default_match : RuleMatch
default_match = record { action = direct; proxy_config_id = 0 }

abbrev pub is_some {ℓ} : {A : Type ℓ} → Option A → Bool
is_some none = false
is_some (some a) = true

-- What one round of the loop does with its rule.
pub data Verdict : Type 0 where
  skip hold take_rule : Verdict

excepted : Option Text → IpAddr → Bool
excepted none dest = false
excepted (some except) dest = match_ip_list except dest

module _ (rx : RegexCrate) where
  abbrev pub Compiled : Type 0
  Compiled = CompiledRule rx.Regex

  unfoldable pub as_match : Compiled → RuleMatch
  as_match r = record { action = r.action; proxy_config_id = r.proxy_config_id }

  unfoldable pub matches_process : Compiled → Text → Option Bool
  matches_process r process_name = if r.process_wildcard then some true else do
    name ← strip_exe_suffix process_name
    some (any (λ m. rx.is_match m name) r.process_matchers)

  unfoldable pub matches_domain : Compiled → Option Text → Bool
  matches_domain r none = false
  matches_domain r (some d) = any (λ m. rx.is_match m d) r.domain_matchers

  unfoldable pub matches_target : Compiled → Connection → Bool
  unfolding excepted matches_domain
  matches_target r c =
      if excepted r.except_hosts c.dest
      then false
      else (r.hosts_all || match_ip_list r.hosts c.dest)
        && (r.ports_all || match_port_list r.ports c.dest_port)
        && (r.domains_all || matches_domain r c.domain)

  -- Whether a wildcard rule still carries a filter.
  unfoldable pub filtered : Compiled → Bool
  filtered r = not r.hosts_all || not r.ports_all || not r.domains_all || is_some r.except_hosts

  unfoldable pub examine : Compiled → Connection → Option Verdict
  unfolding matches filtered matches_process
  examine r c =
      if not (matches r.protocol c.is_udp)
      then some skip
      else if r.process_wildcard
      then some (if filtered r then (if matches_target r c then take_rule else skip) else hold)
      else do
        process ← matches_process r c.process_name
        some (if process && matches_target r c then take_rule else skip)

  keep_first : Option Compiled → Compiled → Option Compiled
  keep_first none r = some r
  keep_first (some f) r = some f

  fall_back : Option Compiled → RuleMatch
  fall_back none = default_match
  fall_back (some r) = as_match r

  unfoldable pub evaluate_from : List Compiled → Option Compiled → Connection → Option RuleMatch
  unfolding keep_first fall_back
  evaluate_from [] fallback c = some (fall_back fallback)
  evaluate_from (r ∷ rs) fallback c = elim (examine r c) [
    | none ↦ none
    | some take_rule ↦ some (as_match r)
    | some hold ↦ evaluate_from rs (keep_first fallback r) c
    | some skip ↦ evaluate_from rs fallback c
  ]

  unfoldable pub evaluate : RuleSet rx.Regex → Connection → Option RuleMatch
  unfolding evaluate_from examine as_match default_match matches_target
  evaluate s c = evaluate_from s.rules none c
