-- ===== src/Rule/Tests.antt =====
-- Rules on concrete input: a regex that is its own pattern, and the theorems applied to it.
use ace_tun.Base.{
  true, false, Option, none, some, List, [], ◌∷◌, ◌++◌, ◌≡◌, ◌↔◌, ◌/◌, ◌^◌, ◌-◌, ◌*◌, ◌+◌, ◌≤◌,
  refl, arith,
}
use ace_tun.Text.{Text, codes, text_eq, byte_len}
use ace_tun.Addr.{v4}
use ace_tun.Rule.{Rule, new, RuleAction}
use ace_tun.Rule.Pattern.{match_prefix}
use ace_tun.Rule.Pattern.Prefix.{match_prefix_iff}
use ace_tun.Rule.Glob.{RegexCrate, strip_exe_suffix}
use ace_tun.Rule.Glob.Suffix.{strip_exe_suffix-eq-none_iff, HasTail}
use ace_tun.Rule.Compile
use ace_tun.Rule.Compile.{RuleSet, CompiledRule, needs_domain_resolution}
use ace_tun.Rule.Evaluate.{Connection, evaluate}
use ace_tun.Rule.Evaluate.Order.{chosen, evaluate-chosen}
use ace_tun.Rule.Evaluate.Domains.{evaluate_ignores_domain}

abbrev exact : RegexCrate
exact = record {
  Regex = Text;
  escape = λ t. t;
  new = λ t. some t;
  is_match = λ r t. text_eq r (codes "(?i)^" ++ t ++ codes "$");
}

abbrev browser : Rule
browser = record (new (codes "curl")) { action = RuleAction.proxy; proxy_config_id = 2 }

abbrev anything : Rule
anything = record (new (codes "*")) { action = RuleAction.block }

abbrev two_rules : List Rule
two_rules = anything ∷ browser ∷ []

abbrev curl_flow : Connection
curl_flow = record {
  process_name = codes "curl.exe";
  dest = v4 0x01020304;
  dest_port = 443;
  is_udp = false;
  domain = none;
}

abbrev or_no_rules : Option (RuleSet Text) → RuleSet Text
or_no_rules none = record { rules = []; has_domain_rules = false }
or_no_rules (some s) = s

unfoldable compiled : RuleSet Text
unfolding Compile.new new
compiled = or_no_rules (Compile.new exact two_rules)

compiled_lem : Compile.new exact two_rules ≡ some compiled
unfolding Compile.new compiled new
compiled_lem = refl

curl_stripped : strip_exe_suffix (codes "curl.exe") ≡ some (codes "curl")
unfolding strip_exe_suffix
curl_stripped = refl

-- The catch-all rule stands first and yields to the specific one.
proxied :
    evaluate exact compiled curl_flow
    ≡ some (record { action = RuleAction.proxy; proxy_config_id = 2 })
unfolding evaluate Compile.new compiled new
proxied = refl

evaluate-chosen_example :
    evaluate exact compiled curl_flow ≡ some (chosen exact curl_flow (codes "curl") compiled.rules)
evaluate-chosen_example = evaluate-chosen exact curl_flow curl_stripped compiled

evaluate_ignores_domain_example :
    evaluate exact compiled (record curl_flow { domain = some (codes "x.com") })
    ≡ evaluate exact compiled curl_flow
unfolding needs_domain_resolution compiled Compile.new new
evaluate_ignores_domain_example =
    evaluate_ignores_domain exact curl_flow (some (codes "x.com")) two_rules compiled compiled_lem
      refl

match_prefix_iff_example :
    (match_prefix (some (0xfe80 * 2 ^ 112)) (some 10) (0xfe80 * 2 ^ 112 + 1) ≡ true)
    ↔ ((10 ≤ 128) × (0xfe80 * 2 ^ 112 / 2 ^ (128 - 10) ≡ (0xfe80 * 2 ^ 112 + 1) / 2 ^ (128 - 10)))
match_prefix_iff_example =
    match_prefix_iff (0xfe80 * 2 ^ 112) 10 (0xfe80 * 2 ^ 112 + 1) (omega arith) (omega arith)

-- Three characters of three bytes each.
strip_exe_suffix-eq-none_iff_example :
    (strip_exe_suffix (0x4e2d ∷ 0x6587 ∷ 0x540d ∷ []) ≡ none)
    ↔ ((4 ≤ byte_len (0x4e2d ∷ 0x6587 ∷ 0x540d ∷ [])) × ¬ HasTail (0x4e2d ∷ 0x6587 ∷ 0x540d ∷ []))
strip_exe_suffix-eq-none_iff_example = strip_exe_suffix-eq-none_iff (0x4e2d ∷ 0x6587 ∷ 0x540d ∷ [])
