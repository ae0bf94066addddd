-- ===== src/Engine/Life/Restore.antt =====
-- What teardown restores and what a restart keeps (src/lib.rs).
use ace_tun.Base.{
  Bool, true, false, none, some, ◌≡◌, refl, ◌∙◌, ap, inl, inr, Bool-cases, Option-cases,
}
use ace_tun.Error.{Result, ok, err}
use ace_tun.Platform.{PhysicalInterface, is_empty}
use ace_tun.Engine.{
  RunState, Engine, StartHost, set_running, set_iface, open_device, create_adapter, start_inner,
  finish_start, start, tear_down, watchdog, end_run, stop, drop_engine, is_running, or_set,
}
use ace_tun.Engine.Life.{
  IsConsistent, has_adapter, stop-IsConsistent, drop_engine-IsConsistent, watchdog-IsConsistent,
  Step, started, stopped, netstack_ended, dropped, Reach, built, step,
}

module _ {Regex : Type 0} where
  ended :
      (adapter sent : Bool) (e : Engine Regex)
      → (end_run (record { adapter = adapter; shutdown_sent = sent }) e).running ≡ none
  unfolding end_run tear_down
  ended true sent e = refl
  ended false sent e = refl

  stop-running : (e : Engine Regex) → (stop e).0.running ≡ none
  unfolding stop
  stop-running e = elim (Option-cases e.running) [
    | inl idle ↦ rw (stop, idle) idle
    | inr (state, e1) ↦ rw (stop, e1) (ended state.adapter state.shutdown_sent e)
  ]

  drop_engine-running : (e : Engine Regex) → (drop_engine e).running ≡ none
  unfolding drop_engine
  drop_engine-running e = elim (Option-cases e.running) [
    | inl idle ↦ rw (drop_engine, idle) idle
    | inr (state, e1) ↦ rw (drop_engine, e1) (ended state.adapter state.shutdown_sent e)
  ]

  watchdog-adapter : (e : Engine Regex) → has_adapter (watchdog e).running ≡ false
  unfolding watchdog
  watchdog-adapter e = elim (Option-cases e.running) [
    | inl idle ↦ rw (watchdog, idle) (ap has_adapter idle)
    | inr (state, e1) ↦ rw (watchdog, e1) refl
  ]

  -- From a consistent engine, a stop, a drop and the end of the netstack, whichever comes, leave no
  -- route behind.
  pub teardown_restores :
      (e : Engine Regex)
      → IsConsistent e
      → ((stop e).0.routed ≡ false)
        × ((drop_engine e).routed ≡ false)
        × ((watchdog e).routed ≡ false)
  teardown_restores e v = (
    (stop-IsConsistent e v).routes ∙ ap has_adapter (stop-running e),
    (drop_engine-IsConsistent e v).routes ∙ ap has_adapter (drop_engine-running e),
    (watchdog-IsConsistent e v).routes ∙ watchdog-adapter e,
  )

  idle_flag : (e : Engine Regex) → e.running ≡ none → is_running e ≡ false
  unfolding is_running
  idle_flag e h = rw h refl

  -- After a stop of a consistent engine, a start for which the operating system gives an interface,
  -- an adapter and its device succeeds, and the tunnel is routed.
  pub start-stop :
      (e : Engine Regex) (h : StartHost)
      → IsConsistent e
      → is_empty h.discovered ≡ false
      → h.create ≡ ok tt
      → h.opens ≡ true
      → ((start h (stop e).0).1 ≡ ok tt) × ((start h (stop e).0).0.routed ≡ true)
  unfolding start start_inner create_adapter open_device finish_start
  start-stop e h v found created opens =
      let free : (stop e).0.shared.running ≡ false =
        (stop-IsConsistent e v).flag ∙ idle_flag (stop e).0 (stop-running e) in
      simp (free, found, created, opens) (refl, refl)

  finish_start-iface :
      (r : Engine Regex × Result RunState) → (finish_start r).0.shared.iface ≡ r.0.shared.iface
  unfolding finish_start set_running
  finish_start-iface (e, ok state) = refl
  finish_start-iface (e, err x) = refl

  create_adapter-iface :
      (h : StartHost) (r : Result (Unit {0})) (e : Engine Regex)
      → (create_adapter h r e).0.shared.iface ≡ e.shared.iface
  unfolding create_adapter open_device
  create_adapter-iface h (err x) e = refl
  create_adapter-iface h (ok u) e = elim (Bool-cases h.opens) [
    | inl opens ↦ rw opens refl
    | inr fails ↦ rw fails refl
  ]

  start_inner-iface :
      (h : StartHost) (e : Engine Regex) (i : PhysicalInterface)
      → e.shared.iface ≡ some i
      → (start_inner h e).0.shared.iface ≡ some i
  unfolding start_inner set_iface or_set
  start_inner-iface h e i set = elim (Bool-cases (is_empty h.discovered)) [
    | inl empty ↦ rw empty set
    | inr found ↦
        rw found (
          create_adapter-iface h h.create (set_iface h.discovered e) ∙ ap (or_set h.discovered) set)
  ]

  start-iface :
      (h : StartHost) (e : Engine Regex) (i : PhysicalInterface)
      → e.shared.iface ≡ some i
      → (start h e).0.shared.iface ≡ some i
  unfolding start set_running
  start-iface h e i set = elim (Bool-cases e.shared.running) [
    | inl busy ↦ simp (busy, set)
    | inr free ↦ simp (
      free,
      finish_start-iface (start_inner h (set_running true e)),
      start_inner-iface h (set_running true e) i set,
    )
  ]

  tear_down-iface :
      (state : RunState) (e : Engine Regex) → (tear_down state e).shared.iface ≡ e.shared.iface
  unfolding tear_down
  tear_down-iface state e = elim (Bool-cases state.adapter) [
    | inl held ↦ rw held refl
    | inr taken ↦ rw taken refl
  ]

  Step-iface :
      {e f : Engine Regex} (i : PhysicalInterface)
      → Step e f
      → e.shared.iface ≡ some i
      → f.shared.iface ≡ some i
  unfolding stop drop_engine watchdog end_run set_running
  Step-iface i (started h e) set = start-iface h e i set
  Step-iface i (stopped e) set = elim (Option-cases e.running) [
    | inl idle ↦ rw (stop, idle) set
    | inr (state, e1) ↦ rw (stop, e1) (tear_down-iface state _ ∙ set)
  ]
  Step-iface i (dropped e) set = elim (Option-cases e.running) [
    | inl idle ↦ rw (drop_engine, idle) set
    | inr (state, e1) ↦ rw (drop_engine, e1) (tear_down-iface state _ ∙ set)
  ]
  Step-iface i (netstack_ended e) set = elim (Option-cases e.running) [
    | inl idle ↦ rw (watchdog, idle) set
    | inr (state, e1) ↦ rw (watchdog, e1) (tear_down-iface state e ∙ set)
  ]

  -- An interface that the shared state holds is kept for good: after any further stops and starts,
  -- whatever interface these discover, it is still the one to which sockets are pinned.
  pub Reach-iface :
      {e f : Engine Regex} (i : PhysicalInterface)
      → Reach e f
      → e.shared.iface ≡ some i
      → f.shared.iface ≡ some i
  Reach-iface i built set = set
  Reach-iface i (step r s) set = Step-iface i s (Reach-iface i r set)
