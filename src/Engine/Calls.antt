-- ===== src/Engine/Calls.antt =====
-- src/lib.rs: calls of `start` and `stop` from several threads, and the tasks that they spawn, as
-- steps that interleave. A run is one call of `start` that got past its check, with all that comes of
-- it; runs are numbered in the order of their starts.
pub mod Stages
pub mod Exclusive
pub mod Overlap
pub mod Teardown
use ace_tun.Base.{
  ℕ, zero, suc, ◌+◌, Bool, true, false, ◌||◌, Option, none, some, List, [], ◌∷◌, ◌++◌, get_elem?,
  set, any, if◌then◌else◌, ◌&&◌, not,
}

-- Where a run is in the calls that own it.
pub data Stage : Type 0 where
  -- `start`, behind the exchange of the flag; behind the discovery of the interface; with an
  -- adapter; with its tasks spawned; and on the way to an error.
  claimed discovered created spawned failing : Stage
  -- In the mutex.
  held : Stage
  -- `stop`, with the state taken; behind the reset of the flag; and waiting for the watchdog.
  taken released awaiting : Stage
  -- Both calls have returned.
  over : Stage

pub data Watchdog : Type 0 where
  -- Not spawned; waiting for the netstack; joining the reader; ended; and ended by a panic.
  unborn waiting joining ended crashed : Watchdog

pub record Run : Type 0 where
  pub stage : Stage
  -- The adapter with its routes, until somebody takes it.
  pub adapter : Bool
  pub netstack : Bool
  pub watchdog : Watchdog
  pub signalled : Bool
  -- Whether an adapter's routes stood when this run asked the routing table for its interface.
  pub through_tunnel : Bool

-- `shared.running`, and the mutex `running` by the number of its run.
pub record Calls : Type 0 where
  pub flag : Bool
  pub slot : Option ℕ
  pub runs : List Run

abbrev pub idle : Calls
idle = record { flag = false; slot = none; runs = [] }

abbrev pub new_run : Run
new_run = record {
  stage = claimed;
  adapter = false;
  netstack = false;
  watchdog = unborn;
  signalled = false;
  through_tunnel = false;
}

-- The steps of one run. A Boolean is an answer: whether the step succeeds.
pub data Op : Type 0 where
  discover create open_device : Bool → Op
  give_up store release signal : Op
  -- The netstack sees the shutdown signal; its stack closes, or it panics.
  netstack_sees_shutdown netstack_closes : Op
  watchdog_takes watchdog_ends watchdog_crashes : Op
  finish : Op

pub data Action : Type 0 where
  -- `start` finds the flag unset; a call that finds it set returns at once.
  claim : Action
  -- `stop` finds a state in the mutex; a call that finds none returns at once.
  take : Action
  on_run : Op → ℕ → Action

abbrev pub is_routed : List Run → Bool
is_routed runs = any (λ r. r.adapter) runs

-- How a step changes its run, by the stage and the watchdog that it needs; a step that is not due
-- changes nothing. `routed` says whether routes of an adapter stand.
unfoldable pub advance : Op → Stage → Watchdog → Bool → Run → Run
advance (discover true) claimed d routed r = record r {
  stage = discovered;
  through_tunnel = routed;
}
advance (discover false) claimed d routed r = record r { stage = failing }
advance (create true) discovered d routed r = record r { stage = created; adapter = true }
advance (create false) discovered d routed r = record r { stage = failing }
advance (open_device true) created d routed r = record r {
  stage = spawned;
  netstack = true;
  watchdog = waiting;
}
advance (open_device false) created d routed r = record r { stage = failing; adapter = false }
advance give_up failing d routed r = record r { stage = over }
advance store spawned d routed r = record r { stage = held }
advance release taken d routed r = record r { stage = released }
advance signal released d routed r = record r { stage = awaiting; signalled = true }
advance netstack_sees_shutdown s waiting routed r =
    if r.signalled then record r { netstack = false } else r
advance netstack_closes s waiting routed r = record r { netstack = false }
advance watchdog_takes s waiting routed r =
    if r.netstack then r else record r { adapter = false; watchdog = joining }
advance watchdog_ends s joining routed r = record r { watchdog = ended }
advance watchdog_crashes s waiting routed r = record r { watchdog = crashed }
advance watchdog_crashes s joining routed r = record r { watchdog = crashed }
advance finish awaiting ended routed r = record r { stage = over }
advance finish awaiting crashed routed r = record r { stage = over; adapter = false }
advance op s d routed r = r

-- The flag behind a step.
unfoldable pub flag_after : Op → Stage → Bool → Bool
flag_after give_up failing flag = false
flag_after release taken flag = false
flag_after op s flag = flag

-- The mutex behind a step of a run.
unfoldable pub slot_after : Op → Stage → ℕ → Option ℕ → Option ℕ
slot_after store spawned i slot = some i
slot_after op s i slot = slot

unfoldable pub on_found : Op → ℕ → Option Run → Calls → Calls
unfolding advance flag_after slot_after
on_found op i none c = c
on_found op i (some r) c = record {
  flag = flag_after op r.stage c.flag;
  slot = slot_after op r.stage i c.slot;
  runs = set c.runs i (advance op r.stage r.watchdog (is_routed c.runs) r);
}

unfoldable pub take_found : ℕ → Option Run → Calls → Calls
take_found i none c = c
take_found i (some r) c = record c { slot = none; runs = set c.runs i (record r { stage = taken }) }

unfoldable pub step : Action → Calls → Calls
unfolding on_found take_found
step claim c = if c.flag then c else record c { flag = true; runs = c.runs ++ new_run ∷ [] }
step take c = elim c.slot [ none ↦ c | some i ↦ take_found i (get_elem? c.runs i) c ]
step (on_run op i) c = on_found op i (get_elem? c.runs i) c

unfoldable pub schedule : List Action → Calls → Calls
unfolding step
schedule [] c = c
schedule (a ∷ more) c = schedule more (step a c)
