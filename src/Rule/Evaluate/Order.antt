-- ===== src/Rule/Evaluate/Order.antt =====
-- The order in which the rules of a set decide (src/rule.rs, `RuleSet::evaluate`).
use ace_tun.Base.{
  Bool, true, false, not, ◌&&◌, Option, none, some, List, [], ◌∷◌, ◌≡◌, refl, arith, find?,
  if◌then◌else◌, any,
}
use ace_tun.Text.{Text}
use ace_tun.Rule.{matches}
use ace_tun.Rule.Glob.{RegexCrate, strip_exe_suffix}
use ace_tun.Rule.Compile.{RuleSet}
use ace_tun.Rule.Evaluate.{
  Compiled, Connection, RuleMatch, default_match, as_match, matches_process, matches_target,
  filtered, Verdict, skip, hold, take_rule, examine, evaluate_from, evaluate,
}

-- The specification reads the rules twice: for the first rule that is specific and applies, and,
-- if there is none, for the first catch-all rule of the protocol.
module _ (rx : RegexCrate) (c : Connection) (name : Text) where
  unfoldable pub applies : Compiled rx → Bool
  applies r =
      matches r.protocol c.is_udp
      && (if r.process_wildcard
          then filtered rx r
          else any (λ m. rx.is_match m name) r.process_matchers)
      && matches_target rx r c

  unfoldable pub catches_all : Compiled rx → Bool
  catches_all r = matches r.protocol c.is_udp && r.process_wildcard && not (filtered rx r)

  abbrev pub or_default : Option (Compiled rx) → RuleMatch
  or_default none = default_match
  or_default (some r) = as_match rx r

  abbrev pub chosen : List (Compiled rx) → RuleMatch
  chosen rules = elim (find? applies rules) [
    | some r ↦ as_match rx r
    | none ↦ or_default (find? catches_all rules)
  ]

module _ (rx : RegexCrate) (c : Connection) {name : Text}
    (stripped : strip_exe_suffix c.process_name ≡ some name) where
  verdict : Bool → Bool → Verdict
  verdict true catch = take_rule
  verdict false true = hold
  verdict false false = skip

  examine-verdict :
      (r : Compiled rx)
      → examine rx r c ≡ some (verdict (applies rx c name r) (catches_all rx c name r))
  unfolding examine verdict matches_process applies catches_all
  examine-verdict r = ground (arith, stripped)

  held : Option (Compiled rx) → Option (Compiled rx) → RuleMatch
  held none later = or_default rx c name later
  held (some r) later = as_match rx r

  evaluate_from-chosen :
      (rules : List (Compiled rx)) (fallback : Option (Compiled rx))
      → evaluate_from rx rules fallback c
        ≡ some (elim (find? (applies rx c name) rules) [
          | some r ↦ as_match rx r
          | none ↦ held fallback (find? (catches_all rx c name) rules)
        ])
  unfolding evaluate_from held verdict
  evaluate_from-chosen [] none = refl
  evaluate_from-chosen [] (some r) = refl
  evaluate_from-chosen (r ∷ rules) none = ground (
    arith,
    examine-verdict r,
    evaluate_from-chosen rules none,
    evaluate_from-chosen rules (some r),
  )
  evaluate_from-chosen (r ∷ rules) (some f) =
      ground (arith, examine-verdict r, evaluate_from-chosen rules (some f))

  -- Where the process name can be compared without a panic, a connection gets the outcome of the
  -- first rule of its protocol that is not a bare catch-all and matches its process and target; if
  -- there is none, that of the first bare catch-all rule of its protocol, wherever it stands among
  -- the rules; and the default, direct with configuration 0, if there is none either.
  pub evaluate-chosen : (s : RuleSet rx.Regex) → evaluate rx s c ≡ some (chosen rx c name s.rules)
  unfolding evaluate held
  evaluate-chosen s = evaluate_from-chosen s.rules none
