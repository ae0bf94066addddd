-- ===== src/Netstack/Decide/Order.antt =====
-- The checks of `decide` (src/netstack.rs) in their order.
use ace_tun.Base.{
  Bool, true, false, not, ◌&&◌, none, some, ◌≡◌, ◌≢◌, ◌⊎◌, refl, inl, inr, arith, if◌then◌else◌,
  Bool-cases, Option-cases, ap, ==_iff, ◌==◌,
}
use ace_tun.Text.{Text}
use ace_tun.Addr.{is_loopback}
use ace_tun.Platform.{index_for}
use ace_tun.Rule.Glob.{RegexCrate, strip_exe_suffix}
use ace_tun.Rule.Evaluate.Order.{chosen, evaluate-chosen}
use ace_tun.State.{iface}
use ace_tun.Netstack.Decide.{
  direct, block, FlowFacts, is_group_address, connection, State, is_own, is_dropped_quic, decide,
  by_action,
}

pub if_same {ℓ} : {A : Type ℓ} (b : Bool) (x : A) → (if b then x else x) ≡ x
if_same true x = refl
if_same false x = refl

module _ (rx : RegexCrate) (s : State rx) (f : FlowFacts) where
  pub own_true : f.pid ≡ some s.current_pid → is_own rx s f ≡ true
  unfolding is_own
  own_true own = rw own (ground arith)

  pub own_false : f.pid ≢ some s.current_pid → is_own rx s f ≡ false
  unfolding is_own
  own_false other = elim (Option-cases f.pid) [
    | inl e ↦ rw e
    | inr (p, e) ↦ elim (Bool-cases (p == s.current_pid)) [
      | inl same ↦ absurd (other (rw e (ap some ((==_iff p s.current_pid).0 same))))
      | inr differs ↦ rw e differs
    ]
  ]

  -- A flow of the engine's own process is never proxied. It goes direct if its destination is
  -- loopback or an interface is known for the destination's family, and is blocked otherwise.
  pub decide_own :
      f.pid ≡ some s.current_pid
      → ((decide rx s f ≡ some direct)
          × ((is_loopback f.dest.ip ≡ true) ⊎ (index_for (iface s) f.dest.ip ≢ none)))
        ⊎ ((decide rx s f ≡ some block)
            × (is_loopback f.dest.ip ≡ false)
            × (index_for (iface s) f.dest.ip ≡ none))
  unfolding decide
  decide_own own = elim (Bool-cases (is_loopback f.dest.ip)) [
    | inl loop ↦ inl (rw (own_true own, loop), inl loop)
    | inr far ↦ elim (Option-cases (index_for (iface s) f.dest.ip)) [
      | inl e ↦ inr (rw (own_true own, far, e), far, e)
      | inr (i, e) ↦ inl (rw (own_true own, far, e), inr (λ absent. cc))
    ]
  ]

  -- A flow that none of the earlier checks takes is decided by the rules.
  pub decide_rules :
      {name : Text}
      → strip_exe_suffix f.process_name ≡ some name
      → f.pid ≢ some s.current_pid
      → is_loopback f.dest.ip && not s.localhost_via_proxy ≡ false
      → is_group_address f.dest.ip ≡ false
      → is_dropped_quic rx s f ≡ false
      → decide rx s f ≡ some (by_action (chosen rx (connection f) name s.rules.rules))
  unfolding decide
  decide_rules stripped own loop group quic =
      rw (own_false own, loop, group, quic, evaluate-chosen rx (connection f) stripped s.rules)
