-- ===== src/Engine/Calls/Stages.antt =====
-- The stages of a run in the calls that own it (src/lib.rs): what a step does to one run.
use ace_tun.Base.{
  ℕ, ◌+◌, Bool, true, false, Option, none, some, ◌≡◌, ◌≢◌, ◌≤◌, refl, ◌⊎◌, inl, inr, arith,
}
use ace_tun.Engine.Calls.{
  Stage, claimed, discovered, spawned, failing, held, taken, released, awaiting, over, Watchdog,
  unborn, joining, ended, Run, Op, store, advance, flag_after, slot_after,
}

abbrev pub bit : Bool → ℕ
bit true = 1
bit false = 0

pub bit-le : (b : Bool) → bit b ≤ 1
bit-le b = ground arith

abbrev pub slot_size : Option ℕ → ℕ
slot_size none = 0
slot_size (some i) = 1

-- A stage between the check of `start` and the reset of the flag, and the one in the mutex.
abbrev pub claims : Stage → ℕ
claims released = 0
claims awaiting = 0
claims over = 0
claims s = 1

abbrev pub holds : Stage → ℕ
holds held = 1
holds s = 0

-- A run that has claimed the flag and is not in the mutex.
abbrev pub pending : Stage → ℕ
pending held = 0
pending released = 0
pending awaiting = 0
pending over = 0
pending s = 1

pub claims-split : (s : Stage) → claims s ≡ pending s + holds s
claims-split s = ground arith

-- A run without an adapter: before it is made, after a failure, and when both calls have returned;
-- and once the watchdog has taken it.
abbrev pub Bare : Stage → Bool → Watchdog → Type 0
Bare claimed a d = (a ≡ false) × (d ≡ unborn)
Bare discovered a d = (a ≡ false) × (d ≡ unborn)
Bare failing a d = a ≡ false
Bare over a d = a ≡ false
Bare s a d = Unit

abbrev pub Emptied : Watchdog → Bool → Type 0
Emptied joining a = a ≡ false
Emptied ended a = a ≡ false
Emptied d a = Unit

-- A run whose start succeeded has a watchdog.
abbrev pub Guarded : Stage → Watchdog → Type 0
Guarded spawned d = d ≢ unborn
Guarded held d = d ≢ unborn
Guarded taken d = d ≢ unborn
Guarded released d = d ≢ unborn
Guarded awaiting d = d ≢ unborn
Guarded s d = Unit

-- The stop of a run that waits has sent the shutdown signal.
abbrev pub Signalled : Stage → Bool → Type 0
Signalled awaiting g = g ≡ true
Signalled s g = Unit

abbrev pub IsClean : Run → Type 0
IsClean r =
    Bare r.stage r.adapter r.watchdog
    × Emptied r.watchdog r.adapter
    × Guarded r.stage r.watchdog
    × Signalled r.stage r.signalled

pub advance-IsClean :
    (op : Op) (routed : Bool) (s : Stage) (a n : Bool) (d : Watchdog) (g t : Bool)
    → Bare s a d × Emptied d a × Guarded s d × Signalled s g
    → IsClean (
        advance op s d routed (record {
          stage = s;
          adapter = a;
          netstack = n;
          watchdog = d;
          signalled = g;
          through_tunnel = t;
        }))
unfolding advance
advance-IsClean op routed s a n d g t h = ground arith

-- The sums of the stages follow the flag and the mutex.
pub advance-claims :
    (op : Op) (routed flag : Bool) (s : Stage) (a n : Bool) (d : Watchdog) (g t : Bool)
    → claims s ≤ bit flag
    → claims
          (advance op s d routed (record {
            stage = s;
            adapter = a;
            netstack = n;
            watchdog = d;
            signalled = g;
            through_tunnel = t;
          })).stage
        + bit flag
      ≡ claims s + bit (flag_after op s flag)
unfolding advance flag_after
advance-claims op routed flag s a n d g t h = ground arith

pub advance-holds :
    (op : Op) (routed : Bool) (i : ℕ) (slot : Option ℕ) (s : Stage) (a n : Bool) (d : Watchdog)
    (g t : Bool)
    → pending s + slot_size slot ≤ 1
    → holds
          (advance op s d routed (record {
            stage = s;
            adapter = a;
            netstack = n;
            watchdog = d;
            signalled = g;
            through_tunnel = t;
          })).stage
        + slot_size slot
      ≡ holds s + slot_size (slot_after op s i slot)
unfolding advance slot_after
advance-holds op routed i slot s a n d g t h = ground arith

-- Either a step leaves the mutex, or it puts its own run there.
pub stored_or_left :
    (op : Op) (s : Stage) (i : ℕ) (slot : Option ℕ)
    → (slot_after op s i slot ≡ slot)
      ⊎ ((slot_after op s i slot ≡ some i) × (op ≡ store) × (s ≡ spawned))
unfolding slot_after
stored_or_left store spawned i slot = inr (refl, refl, refl)
stored_or_left store s i slot = inl refl
stored_or_left op s i slot = inl refl

pub advance-held :
    (op : Op) (s : Stage) (d : Watchdog) (routed : Bool) (r : Run)
    → r.stage ≡ s
    → s ≡ held
    → (advance op s d routed r).stage ≡ held
unfolding advance
advance-held op s d routed r e f = ground arith

pub store-held :
    (op : Op) (s : Stage) (d : Watchdog) (routed : Bool) (r : Run)
    → op ≡ store
    → s ≡ spawned
    → (advance op s d routed r).stage ≡ held
unfolding advance
store-held op s d routed r e f = ground arith
