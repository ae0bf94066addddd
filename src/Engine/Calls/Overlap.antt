-- ===== src/Engine/Calls/Overlap.antt =====
-- A start can overtake the teardown of the run before it (src/lib.rs).
use ace_tun.Base.{
  ℕ, zero, suc, Bool, true, false, Option, none, some, List, [], ◌∷◌, ◌++◌, ◌≡◌, refl, ap, ◌∙◌,
  arith, length, get_elem?-append_length, set-append_length, total, total-append,
}
use ace_tun.Engine.Calls.Stages.{bit}
use ace_tun.Engine.Calls.{
  Stage, released, waiting, Run, Calls, idle, new_run, Op, discover, create, open_device, store,
  release, Action, claim, take, on_run, is_routed, advance, flag_after, slot_after, step, schedule,
}

-- A start that succeeds, and a stop up to the reset of the flag.
abbrev start_and_release : ℕ → List Action
start_and_release i =
    claim
    ∷ on_run (discover true) i
    ∷ on_run (create true) i
    ∷ on_run (open_device true) i
    ∷ on_run store i
    ∷ take
    ∷ on_run release i
    ∷ []

-- A run whose tunnel still stands although the flag is free again.
abbrev lingering : Bool → Run
lingering through = record {
  stage = released;
  adapter = true;
  netstack = true;
  watchdog = waiting;
  signalled = false;
  through_tunnel = through;
}

abbrev quiet : List Run → Calls
quiet runs = record { flag = false; slot = none; runs = runs }

on_run-last :
    (op : Op) (flag : Bool) (slot : Option ℕ) (runs : List Run) (r : Run)
    → step (on_run op (length runs)) (record { flag = flag; slot = slot; runs = runs ++ r ∷ [] })
      ≡ record {
        flag = flag_after op r.stage flag;
        slot = slot_after op r.stage (length runs) slot;
        runs = runs ++ advance op r.stage r.watchdog (is_routed (runs ++ r ∷ [])) r ∷ [];
      }
unfolding step
on_run-last op flag slot runs r =
    rw (step, get_elem?-append_length runs r)
      (ap
        (λ (rs : List Run).
          let c : Calls = record {
            flag = flag_after op r.stage flag;
            slot = slot_after op r.stage (length runs) slot;
            runs = rs;
          } in
          c)
        (set-append_length runs r (advance op r.stage r.watchdog (is_routed (runs ++ r ∷ [])) r)))

take-last :
    (runs : List Run) (r : Run)
    → step take (record { flag = true; slot = some (length runs); runs = runs ++ r ∷ [] })
      ≡ record { flag = true; slot = none; runs = runs ++ record r { stage = Stage.taken } ∷ [] }
unfolding step
take-last runs r =
    rw (step, get_elem?-append_length runs r)
      (ap (λ (rs : List Run). let c : Calls = record { flag = true; slot = none; runs = rs } in c)
        (set-append_length runs r (record r { stage = Stage.taken })))

claim-quiet :
    (runs : List Run)
    → step claim (quiet runs) ≡ record { flag = true; slot = none; runs = runs ++ new_run ∷ [] }
unfolding step
claim-quiet runs = refl

follow :
    (a : Action) (more : List Action) (c d : Calls)
    → step a c ≡ d
    → schedule (a ∷ more) c ≡ schedule more d
unfolding schedule
follow a more c d e = ap (schedule more) e

-- From the check of `start` to the tasks.
schedule_start :
    (more : List Action) (runs : List Run)
    → schedule
        (claim
          ∷ on_run (discover true) (length runs)
          ∷ on_run (create true) (length runs)
          ∷ on_run (open_device true) (length runs)
          ∷ more)
        (quiet runs)
      ≡ schedule more (record {
        flag = true;
        slot = none;
        runs =
            runs
            ++ record (lingering (is_routed (runs ++ new_run ∷ []))) { stage = Stage.spawned } ∷ [];
      })
unfolding advance flag_after slot_after
schedule_start more runs =
    let through = is_routed (runs ++ new_run ∷ []) in
    follow claim _ (quiet runs) _ (claim-quiet runs)
    ∙ follow (on_run (discover true) (length runs)) _ _ _
        (on_run-last (discover true) true none runs new_run)
    ∙ follow (on_run (create true) (length runs)) _ _ _ (
        on_run-last (create true) true none runs
          (record new_run { stage = Stage.discovered; through_tunnel = through }))
    ∙ follow (on_run (open_device true) (length runs)) more _ _ (
        on_run-last (open_device true) true none runs
          (record new_run { stage = Stage.created; adapter = true; through_tunnel = through }))

-- From the store of the state to the reset of the flag.
schedule_release :
    (runs : List Run) (through : Bool)
    → schedule (on_run store (length runs) ∷ take ∷ on_run release (length runs) ∷ []) (record {
      flag = true;
      slot = none;
      runs = runs ++ record (lingering through) { stage = Stage.spawned } ∷ [];
    })
      ≡ schedule [] (quiet (runs ++ lingering through ∷ []))
unfolding advance flag_after slot_after
schedule_release runs through =
    follow (on_run store (length runs)) (take ∷ on_run release (length runs) ∷ []) _ _
      (on_run-last store true none runs (record (lingering through) { stage = Stage.spawned }))
    ∙ follow take (on_run release (length runs) ∷ []) _ _
        (take-last runs (record (lingering through) { stage = Stage.held }))
    ∙ follow (on_run release (length runs)) [] _ _
        (on_run-last release true none runs (record (lingering through) { stage = Stage.taken }))

pub schedule-append :
    (s t : List Action) (c : Calls) → schedule (s ++ t) c ≡ schedule t (schedule s c)
unfolding schedule
schedule-append [] t c = refl
schedule-append (a ∷ s) t c = schedule-append s t (step a c)

schedule_nil : (c : Calls) → schedule [] c ≡ c
unfolding schedule
schedule_nil c = refl

schedule-quiet :
    (runs : List Run)
    → schedule (start_and_release (length runs)) (quiet runs)
      ≡ quiet (runs ++ lingering (is_routed (runs ++ new_run ∷ [])) ∷ [])
schedule-quiet runs =
    schedule_start (on_run store (length runs) ∷ take ∷ on_run release (length runs) ∷ []) runs
    ∙ schedule_release runs (is_routed (runs ++ new_run ∷ []))
    ∙ schedule_nil _

-- So many starts, none of whose tunnels is torn down yet.
lingering_runs : ℕ → List Run
lingering_runs zero = []
lingering_runs (suc n) =
    let runs = lingering_runs n in runs ++ lingering (is_routed (runs ++ new_run ∷ [])) ∷ []

overtaking : ℕ → List Action
overtaking zero = []
overtaking (suc n) = overtaking n ++ start_and_release (length (lingering_runs n))

schedule-overtaking : (n : ℕ) → schedule (overtaking n) idle ≡ quiet (lingering_runs n)
unfolding overtaking lingering_runs
schedule-overtaking zero = schedule_nil idle
schedule-overtaking (suc n) =
    schedule-append (overtaking n) (start_and_release (length (lingering_runs n))) idle
    ∙ ap (schedule (start_and_release (length (lingering_runs n)))) (schedule-overtaking n)
    ∙ schedule-quiet (lingering_runs n)

-- How many adapters with their routes stand, and how many runs found one when they asked the
-- routing table for the physical interface.
abbrev pub adapters : Calls → ℕ
adapters c = total (λ r. bit r.adapter) c.runs

abbrev pub misled : Calls → ℕ
misled c = total (λ r. bit r.through_tunnel) c.runs

lingering_runs-adapters : (n : ℕ) → total (λ (r : Run). bit r.adapter) (lingering_runs n) ≡ n
unfolding lingering_runs
lingering_runs-adapters zero = refl
lingering_runs-adapters (suc n) = omega (
  arith,
  lingering_runs-adapters n,
  total-append (λ (r : Run). bit r.adapter) (lingering_runs n)
      (lingering (is_routed (lingering_runs n ++ new_run ∷ [])) ∷ []),
)

any-append_last :
    (runs : List Run) (r : Run) (more : List Run)
    → r.adapter ≡ true
    → is_routed ((runs ++ r ∷ []) ++ more) ≡ true
any-append_last [] r more h = rw h
any-append_last (q ∷ runs) r more h = ground (arith, any-append_last runs r more h)

lingering_runs-misled :
    (n : ℕ) → total (λ (r : Run). bit r.through_tunnel) (lingering_runs (suc n)) ≡ n
unfolding lingering_runs
lingering_runs-misled zero = refl
lingering_runs-misled (suc n) = omega (
  arith,
  lingering_runs-misled n,
  total-append (λ (r : Run). bit r.through_tunnel) (lingering_runs (suc n))
      (lingering (is_routed (lingering_runs (suc n) ++ new_run ∷ [])) ∷ []),
  ap bit (
      any-append_last (lingering_runs n) (lingering (is_routed (lingering_runs n ++ new_run ∷ [])))
        (new_run ∷ []) refl),
)

-- For every number there is an interleaving of starts and stops after which one adapter more than
-- that stands, and that number of runs asked the routing table for the physical interface while a
-- tunnel's routes stood: `stop` frees the flag before the teardown, so a start can overtake it.
pub start_overtakes_teardown :
    (n : ℕ)
    → (s : List Action) × (adapters (schedule s idle) ≡ suc n) × (misled (schedule s idle) ≡ n)
start_overtakes_teardown n =
    let reached = schedule-overtaking (suc n) in
    (
      overtaking (suc n),
      ap adapters reached ∙ lingering_runs-adapters (suc n),
      ap misled reached ∙ lingering_runs-misled n,
    )
