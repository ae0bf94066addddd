-- ===== src/Rule/Compile.antt =====
-- src/rule.rs: `Rule::compile` and `RuleSet::new`. `none` is a panic of `strip_exe_suffix`.
use ace_tun.Base.{
  ℕ, Bool, not, Option, none, some, List, [], ◌∷◌, if◌then◌else◌, ◌>>=◌, any, is_nil,
}
use ace_tun.Text.{Text}
use ace_tun.Rule.{Rule, RuleAction, RuleProtocol}
use ace_tun.Rule.Pattern.{is_match_all, split_list}
use ace_tun.Rule.Glob.{RegexCrate, strip_exe_suffix, compile_glob}

pub record CompiledRule (Regex : Type 0) : Type 0 where
  pub process_matchers : List Regex
  pub process_wildcard : Bool
  pub hosts : Text
  pub hosts_all : Bool
  pub ports : Text
  pub ports_all : Bool
  pub domain_matchers : List Regex
  pub domains_all : Bool
  pub except_hosts : Option Text
  pub protocol : RuleProtocol
  pub action : RuleAction
  pub proxy_config_id : ℕ

pub record RuleSet (Regex : Type 0) : Type 0 where
  pub rules : List (CompiledRule Regex)
  pub has_domain_rules : Bool

push_some {ℓ} : {A : Type ℓ} → Option A → List A → List A
push_some none rest = rest
push_some (some a) rest = a ∷ rest

module _ (rx : RegexCrate) where
  -- `filter_map(compile_glob)`: a token whose regex is refused is left out.
  compile_globs : List Text → List rx.Regex
  unfolding compile_glob push_some
  compile_globs [] = []
  compile_globs (t ∷ ts) = push_some (compile_glob rx t) (compile_globs ts)

  unfoldable pub compile_glob_list : Text → List rx.Regex
  unfolding compile_globs is_match_all split_list
  compile_glob_list list = if is_match_all list then [] else compile_globs (split_list list)

  compile_processes : List Text → Option (List rx.Regex)
  unfolding compile_glob push_some strip_exe_suffix
  compile_processes [] = some []
  compile_processes (t ∷ ts) = do
    name ← strip_exe_suffix t
    rest ← compile_processes ts
    some (push_some (compile_glob rx name) rest)

  unfoldable pub compile_process_list : Text → Option (List rx.Regex)
  unfolding compile_processes is_match_all split_list
  compile_process_list list =
      if is_match_all list then some [] else compile_processes (split_list list)

  unfoldable pub compile : Rule → Option (CompiledRule rx.Regex)
  unfolding compile_process_list compile_glob_list is_match_all
  compile r = do
    matchers ← compile_process_list r.process_names
    some (record {
      process_matchers = matchers;
      process_wildcard = is_match_all r.process_names;
      hosts = r.hosts;
      hosts_all = is_match_all r.hosts;
      ports = r.ports;
      ports_all = is_match_all r.ports;
      domain_matchers = compile_glob_list r.domains;
      domains_all = is_match_all r.domains;
      except_hosts = r.except_hosts;
      protocol = r.protocol;
      action = r.action;
      proxy_config_id = r.proxy_config_id;
    })

  unfoldable pub compile_all : List Rule → Option (List (CompiledRule rx.Regex))
  unfolding compile
  compile_all [] = some []
  compile_all (r ∷ rs) = do c ← compile r; cs ← compile_all rs; some (c ∷ cs)

  unfoldable pub new : List Rule → Option (RuleSet rx.Regex)
  unfolding compile_all
  new rules = do
    compiled ← compile_all rules
    some (record { rules = compiled; has_domain_rules = any (λ r. not r.domains_all) compiled })

unfoldable pub needs_domain_resolution : {Regex : Type 0} → RuleSet Regex → Bool
needs_domain_resolution s = s.has_domain_rules

unfoldable pub is_empty : {Regex : Type 0} → RuleSet Regex → Bool
is_empty s = is_nil s.rules
