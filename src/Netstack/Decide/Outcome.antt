-- ===== src/Netstack/Decide/Outcome.antt =====
-- Which flows `decide` (src/netstack.rs) proxies and which it blocks.
use ace_tun.Base.{
  Bool, true, false, not, ◌&&◌, none, some, ◌≡◌, ◌≢◌, ◌⊎◌, refl, inl, inr, arith, if◌then◌else◌,
  Bool-cases, Option-cases, ap, ==_iff, ◌==◌, ℕ, ◌↔◌, Option, is_none, ◌>>=◌, some_inj, sym, ◌∙◌,
}
use ace_tun.Text.{Text}
use ace_tun.Addr.{is_loopback}
use ace_tun.Platform.{index_for}
use ace_tun.Rule.Glob.{RegexCrate, strip_exe_suffix}
use ace_tun.Rule.{RuleAction}
use ace_tun.Rule.Evaluate.{RuleMatch, evaluate}
use ace_tun.Rule.Evaluate.Order.{chosen, evaluate-chosen}
use ace_tun.State.{QuicPolicy, drop_quic, iface}
use ace_tun.Netstack.Decide.{
  Decision, direct, proxy, block, drops_quic, FlowFacts, is_group_address, connection, State,
  is_own, is_dropped_quic, decide, by_action,
}
use ace_tun.Netstack.Decide.Order.{if_same, own_true, own_false, decide_rules}

is_dropped_iff :
    (udp port : Bool) (policy : QuicPolicy)
    → udp && port && drops_quic policy ≡ true
    → (udp ≡ true) × (port ≡ true) × (policy ≡ drop_quic)
unfolding drops_quic
is_dropped_iff udp port policy h = ground arith

-- A flow that is proxied has passed the four checks.
passed :
    (own known local group quic : Bool) (rules : Option Decision) (id : ℕ)
    → (if own
        then some (if known then block else direct)
        else if local
        then some direct
        else if group
        then some block
        else if quic
        then some block
        else rules)
      ≡ some (proxy id)
    → (own ≡ false) × (local ≡ false) × (group ≡ false) × (quic ≡ false) × (rules ≡ some (proxy id))
passed own known local group quic rules id h = ground arith

-- What blocked a flow.
stopped :
    (own unknown local group quic : Bool) (rules : Option Decision)
    → (if own
        then some (if unknown then block else direct)
        else if local
        then some direct
        else if group
        then some block
        else if quic
        then some block
        else rules)
      ≡ some block
    → ((own ≡ true) × (unknown ≡ true))
      ⊎ ((own ≡ false)
          × (local ≡ false)
          × ((group ≡ true) ⊎ ((quic ≡ true) ⊎ (rules ≡ some block))))
stopped true unknown local group quic rules h = inl (refl, ground arith)
stopped false unknown true group quic rules h = ground arith
stopped false unknown false true quic rules h = inr (refl, refl, inl refl)
stopped false unknown false false true rules h = inr (refl, refl, inr (inl refl))
stopped false unknown false false false rules h = inr (refl, refl, inr (inr h))

far_unknown :
    (loop : Bool) (index : Option ℕ)
    → not loop && is_none index ≡ true
    → (loop ≡ false) × (index ≡ none)
far_unknown loop index h = ground arith

module _ (rx : RegexCrate) (s : State rx) (f : FlowFacts) where
  -- The destination is not loopback, or loopback is to be proxied too.
  abbrev pub IsOutward : Type 0
  IsOutward = (is_loopback f.dest.ip ≡ false) ⊎ (s.localhost_via_proxy ≡ true)

  -- UDP to the QUIC port under the policy `Drop`.
  abbrev pub IsDroppedQuic : Type 0
  IsDroppedQuic = (f.is_udp ≡ true) × (f.dest.port ≡ s.quic_port) × (s.quic_policy ≡ drop_quic)

  -- A flow that the rules decide.
  abbrev pub IsCandidate : Type 0
  IsCandidate =
      (f.pid ≢ some s.current_pid)
      × IsOutward
      × (is_group_address f.dest.ip ≡ false)
      × ¬ IsDroppedQuic

  -- The rule that the set chooses, or its default, is for the proxy of that id; it blocks.
  abbrev pub Redirects : Text → ℕ → Type 0
  Redirects name id =
      let m = chosen rx (connection f) name s.rules.rules in
      (m.action ≡ RuleAction.proxy) × (m.proxy_config_id ≡ id)

  abbrev pub Rejects : Text → Type 0
  Rejects name = (chosen rx (connection f) name s.rules.rules).action ≡ RuleAction.block

  -- A flow of the engine that would loop back, or a flow of another process that some check or the
  -- rules stop.
  abbrev pub IsBlocked : Text → Type 0
  IsBlocked name =
      ((f.pid ≡ some s.current_pid)
        × (is_loopback f.dest.ip ≡ false)
        × (index_for (iface s) f.dest.ip ≡ none))
      ⊎ ((f.pid ≢ some s.current_pid)
          × IsOutward
          × ((is_group_address f.dest.ip ≡ true) ⊎ (IsDroppedQuic ⊎ Rejects name)))

  is_dropped_quic-false :
      ¬ ((f.is_udp ≡ true) × (f.dest.port ≡ s.quic_port) × (s.quic_policy ≡ drop_quic))
      → is_dropped_quic rx s f ≡ false
  unfolding is_dropped_quic
  is_dropped_quic-false kept = elim (Bool-cases (is_dropped_quic rx s f)) [
    | inr e ↦ e
    | inl e ↦
        let (udp, port, policy) =
          is_dropped_iff f.is_udp (f.dest.port == s.quic_port) s.quic_policy e in
        absurd (kept (udp, (==_iff f.dest.port s.quic_port).0 port, policy))
  ]

  by_action_proxy :
      (m : RuleMatch) (id : ℕ)
      → by_action m ≡ proxy id
      → (m.action ≡ RuleAction.proxy) × (m.proxy_config_id ≡ id)
  unfolding by_action
  by_action_proxy m id h = ground arith

  decide-proxy_if :
      {name : Text} (id : ℕ)
      → strip_exe_suffix f.process_name ≡ some name
      → IsCandidate
      → Redirects name id
      → decide rx s f ≡ some (proxy id)
  unfolding by_action
  decide-proxy_if id stripped (other, far, single, kept) (redirects, same) =
      rw (decide_rules rx s f stripped other (ground arith) single (is_dropped_quic-false kept))
        (ground arith)

  decide-IsCandidate : (id : ℕ) → decide rx s f ≡ some (proxy id) → IsCandidate
  unfolding is_dropped_quic is_own drops_quic decide
  decide-IsCandidate id h =
      let (other, away, single, kept, _) =
        passed (is_own rx s f)
          (not (is_loopback f.dest.ip) && is_none (index_for (iface s) f.dest.ip))
          (is_loopback f.dest.ip && not s.localhost_via_proxy) (is_group_address f.dest.ip)
          (is_dropped_quic rx s f) (evaluate rx s.rules (connection f) >>= λ m. some (by_action m))
          id h in
      (
        λ own. (let mine = own_true rx s f own in cc),
        elim (Bool-cases (is_loopback f.dest.ip)) [
          | inr far ↦ inl far
          | inl near ↦ inr (ground arith)
        ],
        single,
        λ (udp, port, policy). (let same = (==_iff f.dest.port s.quic_port).1 port in ground arith),
      )

  decide-proxy_iff :
      {name : Text} (id : ℕ)
      → strip_exe_suffix f.process_name ≡ some name
      → (decide rx s f ≡ some (proxy id)) ↔ (IsCandidate × Redirects name id)
  decide-proxy_iff {name} id stripped = (only_if, λ (c, r). decide-proxy_if id stripped c r)
    where
      only_if : decide rx s f ≡ some (proxy id) → IsCandidate × Redirects name id
      only_if h =
          let (other, far, single, kept) = decide-IsCandidate id h in
          let ruled =
            decide_rules rx s f stripped other (ground arith) single (is_dropped_quic-false kept) in
          ((other, far, single, kept), by_action_proxy _ id (some_inj (sym ruled ∙ h)))

  by_action_block : (m : RuleMatch) → by_action m ≡ block → m.action ≡ RuleAction.block
  unfolding by_action
  by_action_block m h = ground arith

  own_is : is_own rx s f ≡ true → f.pid ≡ some s.current_pid
  unfolding is_own
  own_is mine = elim (Option-cases f.pid) [
    | inl e ↦ cc (rw e at mine)
    | inr (p, e) ↦ e ∙ ap some ((==_iff p s.current_pid).0 (rw e at mine))
  ]

  outward : is_loopback f.dest.ip && not s.localhost_via_proxy ≡ false → IsOutward
  outward h = elim (Bool-cases (is_loopback f.dest.ip)) [
    | inr far ↦ inl far
    | inl near ↦ inr (ground arith)
  ]

  not_own : is_own rx s f ≡ false → f.pid ≢ some s.current_pid
  not_own other own = let mine = own_true rx s f own in cc

  quic_is : is_dropped_quic rx s f ≡ true → IsDroppedQuic
  unfolding is_dropped_quic
  quic_is e =
      let (udp, port, policy) =
        is_dropped_iff f.is_udp (f.dest.port == s.quic_port) s.quic_policy e in
      (udp, (==_iff f.dest.port s.quic_port).0 port, policy)

  is_quic : IsDroppedQuic → is_dropped_quic rx s f ≡ true
  unfolding is_dropped_quic drops_quic
  is_quic (udp, port, policy) =
      let same = (==_iff f.dest.port s.quic_port).1 port in rw (udp, same, policy)

  block_action : (m : RuleMatch) → m.action ≡ RuleAction.block → by_action m ≡ block
  unfolding by_action
  block_action m e = rw e

  decide_stopped :
      f.pid ≢ some s.current_pid
      → IsOutward
      → (is_group_address f.dest.ip ≡ true) ⊎ (is_dropped_quic rx s f ≡ true)
      → decide rx s f ≡ some block
  unfolding decide
  decide_stopped other out (inl group) =
      let away : is_loopback f.dest.ip && not s.localhost_via_proxy ≡ false = ground arith in
      rw (own_false rx s f other, away, group) refl
  decide_stopped other out (inr quic) =
      let away : is_loopback f.dest.ip && not s.localhost_via_proxy ≡ false = ground arith in
      rw (own_false rx s f other, away, quic) (if_same (is_group_address f.dest.ip) (some block))

  decide_rejected :
      {name : Text}
      → strip_exe_suffix f.process_name ≡ some name
      → f.pid ≢ some s.current_pid
      → IsOutward
      → Rejects name
      → decide rx s f ≡ some block
  decide_rejected stripped other out rejects = elim (Bool-cases (is_group_address f.dest.ip)) [
    | inl group ↦ decide_stopped other out (inl group)
    | inr single ↦ elim (Bool-cases (is_dropped_quic rx s f)) [
      | inl quic ↦ decide_stopped other out (inr quic)
      | inr kept ↦
          decide_rules rx s f stripped other (ground arith) single kept
          ∙ ap some (block_action _ rejects)
    ]
  ]

  decide_own_blocked :
      f.pid ≡ some s.current_pid
      → is_loopback f.dest.ip ≡ false
      → index_for (iface s) f.dest.ip ≡ none
      → decide rx s f ≡ some block
  unfolding decide
  decide_own_blocked own far unknown = rw (own_true rx s f own, far, unknown) refl

  IsBlocked-decide :
      {name : Text}
      → strip_exe_suffix f.process_name ≡ some name
      → IsBlocked name
      → decide rx s f ≡ some block
  IsBlocked-decide stripped (inl (own, far, unknown)) = decide_own_blocked own far unknown
  IsBlocked-decide stripped (inr (other, out, inl group)) = decide_stopped other out (inl group)
  IsBlocked-decide stripped (inr (other, out, inr (inl quic))) =
      decide_stopped other out (inr (is_quic quic))
  IsBlocked-decide stripped (inr (other, out, inr (inr rejects))) =
      decide_rejected stripped other out rejects

  decide-IsBlocked :
      {name : Text}
      → strip_exe_suffix f.process_name ≡ some name
      → decide rx s f ≡ some block
      → IsBlocked name
  unfolding decide
  decide-IsBlocked {name} stripped h =
      elim (stopped (is_own rx s f)
        (not (is_loopback f.dest.ip) && is_none (index_for (iface s) f.dest.ip))
        (is_loopback f.dest.ip && not s.localhost_via_proxy) (is_group_address f.dest.ip)
        (is_dropped_quic rx s f) (evaluate rx s.rules (connection f) >>= λ m. some (by_action m))
        h) [
          | inl (mine, loops) ↦
              let (far, unknown) =
                far_unknown (is_loopback f.dest.ip) (index_for (iface s) f.dest.ip) loops in
              inl (own_is mine, far, unknown)
          | inr (other, out, inl group) ↦ inr (not_own other, outward out, inl group)
          | inr (other, out, inr (inl quic)) ↦
              inr (not_own other, outward out, inr (inl (quic_is quic)))
          | inr (other, out, inr (inr ruled)) ↦ inr (
            not_own other,
            outward out,
            inr (
                inr (
                  by_action_block _ (
                    some_inj (
                      sym (
                        ap (λ o. o >>= λ m. some (by_action m))
                          (evaluate-chosen rx (connection f) stripped s.rules))
                      ∙ ruled)))),
          )
        ]

  -- Where the process name can be compared without a panic, a flow is proxied through the configuration
  -- with that id exactly when the following hold: it is of another process, or of an unknown one; its
  -- destination is not loopback, unless `localhost_via_proxy` is set; that is no multicast or
  -- broadcast address; the flow is not UDP to the QUIC port under the policy `Drop`; and the first
  -- specific rule that applies, else the first catch-all rule, has the action `Proxy` and that id.
  -- It is blocked exactly when it is of the engine's own process, not to loopback, with no interface
  -- known for its destination; or when it is of another process or of an unknown one, to a destination
  -- as above, and that is a multicast or broadcast address, or the flow is UDP to the QUIC port under
  -- the policy `Drop`, or the rule that is chosen so has the action `Block`.
  pub decide_iff :
      {name : Text} (id : ℕ)
      → strip_exe_suffix f.process_name ≡ some name
      → ((decide rx s f ≡ some (proxy id)) ↔ (IsCandidate × Redirects name id))
        × ((decide rx s f ≡ some block) ↔ IsBlocked name)
  decide_iff id stripped =
      (decide-proxy_iff id stripped, (decide-IsBlocked stripped, IsBlocked-decide stripped))
