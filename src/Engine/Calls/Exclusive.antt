-- ===== src/Engine/Calls/Exclusive.antt =====
-- What every interleaving of `start` and `stop` keeps (src/lib.rs).
use ace_tun.Base.{
  ℕ, ◌+◌, Bool, true, Option, none, some, List, [], ◌∷◌, ◌++◌, ◌≡◌, ◌≤◌, refl, sym, ap, ◌∙◌, inl,
  inr, subst, arith, Bool-cases, Option-cases, get_elem?, set, get_elem?-append_left, get_elem?-set,
  lt_of_get_elem?, ◌==◌, ==_iff, some_inj, total, total-append, total-set, le-total, total-split,
  All, All-append, All-set, All-get_elem?, if◌then◌else◌,
}
use ace_tun.Engine.Calls.{
  spawned, held, taken, Run, Calls, idle, new_run, Op, store, Action, claim, take, on_run,
  is_routed, advance, slot_after, on_found, take_found, step, schedule,
}
use ace_tun.Engine.Calls.Stages.{
  Guarded, IsClean, advance-IsClean, advance-claims, advance-held, advance-holds, bit, bit-le,
  claims, claims-split, holds, pending, slot_size, store-held, stored_or_left,
}

abbrev pub Slotted : Option ℕ → List Run → Type 0
Slotted none runs = Unit
Slotted (some i) runs = (r : Run) × (get_elem? runs i ≡ some r) × (r.stage ≡ held)

pub record IsExclusive (c : Calls) : Type 0 where
  pub claimed_once : total (λ (r : Run). claims r.stage) c.runs ≡ bit c.flag
  pub held_once : total (λ (r : Run). holds r.stage) c.runs ≡ slot_size c.slot
  pub slotted : Slotted c.slot c.runs
  pub clean : All IsClean c.runs

module _ (c : Calls) (v : IsExclusive c) (i : ℕ) (r : Run)
    (found : get_elem? c.runs i ≡ some r) where
  claims-le : claims r.stage ≤ bit c.flag
  claims-le =
      subst (λ n. claims r.stage ≤ n) v.claimed_once
        (le-total (λ (q : Run). claims q.stage) c.runs i r found)

  pending-le : pending r.stage + slot_size c.slot ≤ 1
  pending-le = omega (
    arith,
    le-total (λ (q : Run). pending q.stage) c.runs i r found,
    v.claimed_once,
    v.held_once,
    bit-le c.flag,
    total-split (λ (q : Run). claims q.stage) (λ (q : Run). pending q.stage)
        (λ (q : Run). holds q.stage) (λ q. claims-split q.stage) c.runs,
  )

  get_elem?-set_found :
      (j : ℕ) (after : Run) → (i == j) ≡ true → get_elem? (set c.runs i after) j ≡ some after
  get_elem?-set_found j after same =
      rw (get_elem?-set c.runs i j after (lt_of_get_elem? c.runs i r found), same)

  same_run : (j : ℕ) (q : Run) → (i == j) ≡ true → get_elem? c.runs j ≡ some q → r ≡ q
  same_run j q same at =
      let e : i ≡ j = (==_iff i j).0 same in some_inj (sym found ∙ ap (get_elem? c.runs) e ∙ at)

  -- The run in the mutex, wherever the step was.
  Slotted-set :
      (slot : Option ℕ) (after : Run)
      → (r.stage ≡ held → after.stage ≡ held)
      → Slotted slot c.runs
      → Slotted slot (set c.runs i after)
  Slotted-set none after stays old = tt
  Slotted-set (some j) after stays (q, at, q_held) = elim (Bool-cases (i == j)) [
    | inl same ↦ (
      after,
      get_elem?-set_found j after same,
      stays (ap (λ (p : Run). p.stage) (same_run j q same at) ∙ q_held),
    )
    | inr apart ↦ (
      q,
      rw (get_elem?-set c.runs i j after (lt_of_get_elem? c.runs i r found), apart) at,
      q_held,
    )
  ]

  Slotted-slot_after :
      (op : Op) (after : Run)
      → (r.stage ≡ held → after.stage ≡ held)
      → (op ≡ store → r.stage ≡ spawned → after.stage ≡ held)
      → Slotted (slot_after op r.stage i c.slot) (set c.runs i after)
  Slotted-slot_after op after stays stored = elim (stored_or_left op r.stage i c.slot) [
    | inl left ↦ rw left (Slotted-set c.slot after stays v.slotted)
    | inr (put, is_store, at) ↦
        rw put (after, get_elem?-set_found i after ((==_iff i i).1 refl), stored is_store at)
  ]

  on_found-IsExclusive : (op : Op) → IsExclusive (on_found op i (some r) c)
  unfolding on_found
  on_found-IsExclusive op =
      let routed = is_routed c.runs in
      let after = advance op r.stage r.watchdog routed r in
      record {
        claimed_once = omega (
          arith,
          total-set (λ (q : Run). claims q.stage) c.runs i r after found,
          v.claimed_once,
          advance-claims op routed c.flag r.stage r.adapter r.netstack r.watchdog r.signalled
              r.through_tunnel claims-le,
        );
        held_once = omega (
          arith,
          total-set (λ (q : Run). holds q.stage) c.runs i r after found,
          v.held_once,
          advance-holds op routed i c.slot r.stage r.adapter r.netstack r.watchdog r.signalled
              r.through_tunnel pending-le,
        );
        slotted =
            Slotted-slot_after op after (advance-held op r.stage r.watchdog routed r refl)
              (store-held op r.stage r.watchdog routed r);
        clean = All-set IsClean c.runs i after v.clean (
            advance-IsClean op routed r.stage r.adapter r.netstack r.watchdog r.signalled
              r.through_tunnel (All-get_elem? IsClean c.runs i r v.clean found));
      }

take_found-IsExclusive :
    (c : Calls) (i : ℕ) (r : Run)
    → IsExclusive c
    → c.slot ≡ some i
    → get_elem? c.runs i ≡ some r
    → r.stage ≡ held
    → IsExclusive (take_found i (some r) c)
unfolding take_found
take_found-IsExclusive c i r v full found at =
    let after : Run = record r { stage = taken } in
    let (bare, emptied, guarded, signalled) = All-get_elem? IsClean c.runs i r v.clean found in
    record {
      claimed_once = omega (
        arith,
        total-set (λ (q : Run). claims q.stage) c.runs i r after found,
        v.claimed_once,
        ap claims at,
      );
      held_once = omega (
        arith,
        total-set (λ (q : Run). holds q.stage) c.runs i r after found,
        v.held_once,
        ap holds at,
        ap slot_size full,
      );
      slotted = tt;
      clean =
          All-set IsClean c.runs i after v.clean
            (tt, emptied, subst (λ s. Guarded s r.watchdog) at guarded, tt);
    }

total-one : (w : Run → ℕ) (r : Run) → total w (r ∷ []) ≡ w r
total-one w r = omega arith

claim-IsExclusive : (c : Calls) → IsExclusive c → IsExclusive (step claim c)
unfolding step
claim-IsExclusive c v =
    let begun : Calls = record c { flag = true; runs = c.runs ++ new_run ∷ [] } in
    elim (Bool-cases c.flag) [
      | inl busy ↦ subst (λ (b : Bool). IsExclusive (if b then c else begun)) (sym busy) v
      | inr free ↦
          subst (λ (b : Bool). IsExclusive (if b then c else begun)) (sym free)
            (record {
              claimed_once = omega (
                arith,
                total-append (λ (q : Run). claims q.stage) c.runs (new_run ∷ []),
                total-one (λ (q : Run). claims q.stage) new_run,
                v.claimed_once,
                ap bit free,
              );
              held_once = omega (
                arith,
                total-append (λ (q : Run). holds q.stage) c.runs (new_run ∷ []),
                total-one (λ (q : Run). holds q.stage) new_run,
                v.held_once,
              );
              slotted = Slotted-append c.slot c.runs v.slotted;
              clean =
                  All-append IsClean c.runs (new_run ∷ []) v.clean (((refl, refl), tt, tt, tt), tt);
            })
    ]
  where
    Slotted-append :
        (slot : Option ℕ) (runs : List Run)
        → Slotted slot runs
        → Slotted slot (runs ++ new_run ∷ [])
    Slotted-append none runs old = tt
    Slotted-append (some i) runs (r, found, at) =
        (r, get_elem?-append_left runs (new_run ∷ []) i r found, at)

take-IsExclusive : (c : Calls) → IsExclusive c → IsExclusive (step take c)
unfolding step
take-IsExclusive c v = elim (Option-cases c.slot) [
  | inl empty ↦ rw (step, empty) v
  | inr (i, full) ↦
      let (r, found, at) = subst (λ s. Slotted s c.runs) full v.slotted in
      rw (step, full, found) (take_found-IsExclusive c i r v full found at)
]

step-IsExclusive : (a : Action) (c : Calls) → IsExclusive c → IsExclusive (step a c)
unfolding step
step-IsExclusive claim c v = claim-IsExclusive c v
step-IsExclusive take c v = take-IsExclusive c v
step-IsExclusive (on_run op i) c v = elim (Option-cases (get_elem? c.runs i)) [
  | inl missing ↦ rw (step, missing) v
  | inr (r, found) ↦ rw (step, found) (on_found-IsExclusive c v i r found op)
]

schedule-IsExclusive : (s : List Action) (c : Calls) → IsExclusive c → IsExclusive (schedule s c)
unfolding schedule
schedule-IsExclusive [] c v = v
schedule-IsExclusive (a ∷ more) c v = schedule-IsExclusive more (step a c) (step-IsExclusive a c v)

-- However calls of `start` and `stop` and the tasks that they spawn interleave, from an engine that
-- was just built: the flag is set exactly while one run is between the check of `start` and the reset
-- of `stop`, and never for two at once; the mutex names the one run that no call owns; and a run has
-- no adapter before it makes one, after its start failed, when its stop has returned, and once its
-- watchdog has taken it, and it has a watchdog from its success on.
pub calls-IsExclusive : (s : List Action) → IsExclusive (schedule s idle)
calls-IsExclusive s =
    schedule-IsExclusive s idle
      (record { claimed_once = refl; held_once = refl; slotted = tt; clean = tt })
