-- ===== src/Engine/Calls/Teardown.antt =====
-- A stop that waits can always finish (src/lib.rs).
use ace_tun.Base.{
  ℕ, Bool, true, false, some, List, [], ◌∷◌, ◌++◌, ◌≡◌, ◌≢◌, refl, ap, ◌∙◌, subst, arith, get_elem?,
  get_elem?-set, lt_of_get_elem?, ==_iff, All-get_elem?,
}
use ace_tun.Engine.Calls.{
  Stage, awaiting, over, Watchdog, unborn, Run, Calls, idle, Op, netstack_sees_shutdown,
  watchdog_takes, watchdog_ends, finish, Action, on_run, is_routed, advance, step, schedule,
}
use ace_tun.Engine.Calls.Stages.{Bare, Guarded, Signalled, IsClean}
use ace_tun.Engine.Calls.Exclusive.{calls-IsExclusive}
use ace_tun.Engine.Calls.Overlap.{schedule-append}

abbrev advanced : Op → Bool → Run → Run
advanced op routed r = advance op r.stage r.watchdog routed r

get_elem?-on_run :
    (op : Op) (i : ℕ) (c : Calls) (r : Run)
    → get_elem? c.runs i ≡ some r
    → get_elem? (step (on_run op i) c).runs i ≡ some (advanced op (is_routed c.runs) r)
unfolding step
get_elem?-on_run op i c r found =
    rw (step, found)
      (rw (
        get_elem?-set c.runs i i (advanced op (is_routed c.runs) r)
            (lt_of_get_elem? c.runs i r found),
        (==_iff i i).1 refl,
      ))

-- The netstack sees the shutdown signal and ends, the watchdog tears down, and the stop returns. A
-- step that is not due changes nothing.
abbrev pub ending : ℕ → List Action
ending i =
    on_run netstack_sees_shutdown i
    ∷ on_run watchdog_takes i
    ∷ on_run watchdog_ends i
    ∷ on_run finish i
    ∷ []

ending-over :
    (p q u v : Bool) (s : Stage) (a n : Bool) (d : Watchdog) (g t : Bool)
    → s ≡ awaiting
    → d ≢ unborn
    → g ≡ true
    → (advanced finish v (
        advanced watchdog_ends u (
          advanced watchdog_takes q (
            advanced netstack_sees_shutdown p (record {
              stage = s;
              adapter = a;
              netstack = n;
              watchdog = d;
              signalled = g;
              through_tunnel = t;
            }))))).stage
      ≡ over
unfolding advance
ending-over p q u v s a n d g t e h sent = ground arith

ending-get :
    (i : ℕ) (c : Calls) (r : Run)
    → get_elem? c.runs i ≡ some r
    → r.stage ≡ awaiting
    → r.watchdog ≢ unborn
    → r.signalled ≡ true
    → (q : Run) × (get_elem? (schedule (ending i) c).runs i ≡ some q) × (q.stage ≡ over)
unfolding schedule
ending-get i c r found waits guarded sent =
    let c1 = step (on_run netstack_sees_shutdown i) c in
    let c2 = step (on_run watchdog_takes i) c1 in
    let c3 = step (on_run watchdog_ends i) c2 in
    let r1 = advanced netstack_sees_shutdown (is_routed c.runs) r in
    let r2 = advanced watchdog_takes (is_routed c1.runs) r1 in
    let r3 = advanced watchdog_ends (is_routed c2.runs) r2 in
    let found1 = get_elem?-on_run netstack_sees_shutdown i c r found in
    let found2 = get_elem?-on_run watchdog_takes i c1 r1 found1 in
    let found3 = get_elem?-on_run watchdog_ends i c2 r2 found2 in
    (
      advanced finish (is_routed c3.runs) r3,
      get_elem?-on_run finish i c3 r3 found3,
      ending-over (is_routed c.runs) (is_routed c1.runs) (is_routed c2.runs) (is_routed c3.runs)
          r.stage r.adapter r.netstack r.watchdog r.signalled r.through_tunnel waits guarded sent,
    )

-- However starts, stops and tasks have interleaved, a stop that waits for its run's watchdog can
-- finish: it has sent the shutdown signal, and once the netstack sees that and ends, the watchdog has
-- torn down and ended, and the stop goes on, it has returned and its run has no adapter.
pub stop_finishes :
    (s : List Action) (i : ℕ) (r : Run)
    → get_elem? (schedule s idle).runs i ≡ some r
    → r.stage ≡ awaiting
    → (q : Run) × (get_elem? (schedule (s ++ ending i) idle).runs i ≡ some q)
      × (q.stage ≡ over)
      × (q.adapter ≡ false)
stop_finishes s i r found waits =
    let c = schedule s idle in
    let (bare, emptied, guarded, signalled) =
      All-get_elem? IsClean c.runs i r (calls-IsExclusive s).clean found in
    let (q, at, ends) =
      ending-get i c r found waits (subst (λ t. Guarded t r.watchdog) waits guarded)
        (subst (λ t. Signalled t r.signalled) waits signalled) in
    let joined : schedule (s ++ ending i) idle ≡ schedule (ending i) c =
      schedule-append s (ending i) idle in
    let at_end : get_elem? (schedule (s ++ ending i) idle).runs i ≡ some q =
      ap (λ (d : Calls). get_elem? d.runs i) joined ∙ at in
    let (bare_end, _, _, _) =
      All-get_elem? IsClean (schedule (s ++ ending i) idle).runs i q
        (calls-IsExclusive (s ++ ending i)).clean at_end in
    (q, at_end, ends, subst (λ t. Bare t q.adapter q.watchdog) ends bare_end)
