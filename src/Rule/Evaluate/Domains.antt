-- ===== src/Rule/Evaluate/Domains.antt =====
-- The gate of the DNS lookup (src/rule.rs, `has_domain_rules` and `needs_domain_resolution`).
use ace_tun.Base.{
  Bool, true, false, not, ◌||◌, Option, none, some, List, [], ◌∷◌, ◌≡◌, refl, arith, any,
  >>=-eq-some, some_inj, subst, inl, inr, Option-cases,
}
use ace_tun.Text.{Text}
use ace_tun.Rule.{Rule}
use ace_tun.Rule.Glob.{RegexCrate}
use ace_tun.Rule.Compile.{RuleSet, new, compile_all, needs_domain_resolution}
use ace_tun.Rule.Evaluate.{
  Compiled, Connection, matches_target, examine, evaluate_from, evaluate, matches_process, skip,
  hold, take_rule, keep_first,
}

neither_filters : (all rest : Bool) → (not all || rest) ≡ false → (all ≡ true) × (rest ≡ false)
neither_filters all rest h = ground arith

module _ (rx : RegexCrate) (c : Connection) (d : Option Text) where
  examine-domain :
      (r : Compiled rx)
      → r.domains_all ≡ true
      → examine rx r (record c { domain = d }) ≡ examine rx r c
  unfolding examine matches_target matches_process
  examine-domain r h = rw h

  evaluate_from-domain :
      (rules : List (Compiled rx)) (fallback : Option (Compiled rx))
      → any (λ r. not r.domains_all) rules ≡ false
      → evaluate_from rx rules fallback (record c { domain = d })
        ≡ evaluate_from rx rules fallback c
  unfolding evaluate_from
  evaluate_from-domain [] fallback h = refl
  evaluate_from-domain (r ∷ rules) fallback h =
      let (here, later) = neither_filters r.domains_all _ h in
      elim (Option-cases (examine rx r c)) [
        | inl e ↦ rw (evaluate_from, examine-domain r here, e)
        | inr (skip, e) ↦
            rw (evaluate_from, examine-domain r here, e) (evaluate_from-domain rules fallback later)
        | inr (hold, e) ↦
            rw (evaluate_from, examine-domain r here, e)
              (evaluate_from-domain rules (keep_first rx fallback r) later)
        | inr (take_rule, e) ↦ rw (evaluate_from, examine-domain r here, e)
      ]

  flag :
      (compiled : List (Compiled rx)) (s : RuleSet rx.Regex)
      → ◌≡◌ {A = RuleSet rx.Regex}
          (record { rules = compiled; has_domain_rules = any (λ r. not r.domains_all) compiled })
          s
      → s.has_domain_rules ≡ false
      → any (λ r. not r.domains_all) s.rules ≡ false
  flag compiled s same h =
      subst
        (λ (t : RuleSet rx.Regex).
          t.has_domain_rules ≡ false → any (λ r. not r.domains_all) t.rules ≡ false)
        same (λ e. e) h

  -- If a compiled set says by `needs_domain_resolution` that it needs no domain, the outcome of a
  -- connection does not depend on the domain that it is given.
  pub evaluate_ignores_domain :
      (rules : List Rule) (s : RuleSet rx.Regex)
      → new rx rules ≡ some s
      → needs_domain_resolution s ≡ false
      → evaluate rx s (record c { domain = d }) ≡ evaluate rx s c
  unfolding evaluate new needs_domain_resolution
  evaluate_ignores_domain rules s made h =
      let (compiled, _, same) = >>=-eq-some (compile_all rx rules) _ made in
      evaluate_from-domain s.rules none (flag compiled s (some_inj same) h)
