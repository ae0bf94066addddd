-- ===== src/Engine/Life.antt =====
-- The engine's life (src/lib.rs): what every reachable engine keeps.
pub mod Restore
use ace_tun.Base.{
  Bool, true, false, Option, none, some, ◌≡◌, ◌≢◌, refl, sym, ◌∙◌, ap, inl, inr, subst, Bool-cases,
  Option-cases, if◌then◌else◌,
}
use ace_tun.Error.{Error, Result, ok, err}
use ace_tun.Platform.{PhysicalInterface, is_empty}
use ace_tun.State.{Shared}
use ace_tun.Engine.{
  RunState, Engine, StartHost, set_running, set_iface, open_device, create_adapter, start_inner,
  finish_start, start, tear_down, watchdog, end_run, stop, drop_engine, is_running,
}

abbrev pub has_adapter : Option RunState → Bool
has_adapter none = false
has_adapter (some state) = state.adapter

module _ {Regex : Type 0} where
  -- The flag that `start` tests agrees with the state that it keeps, and routes exist exactly while
  -- the state holds an adapter.
  pub record IsConsistent (e : Engine Regex) : Type 0 where
    pub flag : e.shared.running ≡ is_running e
    pub routes : e.routed ≡ has_adapter e.running

  -- The operations, one after the other; `fails` of `stop` and `start` leave the state they return.
  pub data Step : Engine Regex → Engine Regex → Type 0 where
    started : (h : StartHost) (e : Engine Regex) → Step e (start h e).0
    stopped : (e : Engine Regex) → Step e (stop e).0
    netstack_ended : (e : Engine Regex) → Step e (watchdog e)
    dropped : (e : Engine Regex) → Step e (drop_engine e)

  pub data Reach (e : Engine Regex) : Engine Regex → Type 0 where
    built : Reach e e
    step : {d f : Engine Regex} → Reach e d → Step d f → Reach e f

  end_run-IsConsistent :
      (adapter sent : Bool) (e : Engine Regex)
      → e.routed ≡ adapter
      → IsConsistent (end_run (record { adapter = adapter; shutdown_sent = sent }) e)
  unfolding end_run tear_down set_running is_running
  end_run-IsConsistent true sent e h = record { flag = refl; routes = refl }
  end_run-IsConsistent false sent e h = record { flag = refl; routes = h }

  pub stop-IsConsistent : (e : Engine Regex) → IsConsistent e → IsConsistent (stop e).0
  unfolding stop is_running
  stop-IsConsistent e v = elim (Option-cases e.running) [
    | inl idle ↦ rw (stop, idle) v
    | inr (state, e1) ↦
        rw (stop, e1) (end_run-IsConsistent state.adapter state.shutdown_sent e (rw e1 at v.routes))
  ]

  pub drop_engine-IsConsistent : (e : Engine Regex) → IsConsistent e → IsConsistent (drop_engine e)
  unfolding drop_engine
  drop_engine-IsConsistent e v = elim (Option-cases e.running) [
    | inl idle ↦ rw (drop_engine, idle) v
    | inr (state, e1) ↦
        rw (drop_engine, e1)
          (end_run-IsConsistent state.adapter state.shutdown_sent e (rw e1 at v.routes))
  ]

  taken-IsConsistent :
      (adapter sent : Bool) (e : Engine Regex)
      → e.routed ≡ adapter
      → e.shared.running ≡ true
      → IsConsistent (record (tear_down (record { adapter = adapter; shutdown_sent = sent }) e) {
        running = some (record { adapter = false; shutdown_sent = sent });
      })
  unfolding tear_down is_running
  taken-IsConsistent true sent e h flag = record { flag = flag; routes = refl }
  taken-IsConsistent false sent e h flag = record { flag = flag; routes = h }

  pub watchdog-IsConsistent : (e : Engine Regex) → IsConsistent e → IsConsistent (watchdog e)
  unfolding watchdog is_running
  watchdog-IsConsistent e v = elim (Option-cases e.running) [
    | inl idle ↦ rw (watchdog, idle) v
    | inr (state, e1) ↦
        rw (watchdog, e1)
          (taken-IsConsistent state.adapter state.shutdown_sent e (rw e1 at v.routes)
            (v.flag ∙ ap has_state e1))
  ]
    where
      has_state : Option RunState → Bool
      has_state none = false
      has_state (some state) = true

  -- What a start must leave: its state's adapter is routed, or nothing is.
  abbrev Ready : Engine Regex × Result RunState → Type 0
  Ready (e, ok state) = (e.shared.running ≡ true) × (e.routed ≡ state.adapter)
  Ready (e, err x) = (e.running ≡ none) × (e.routed ≡ false)

  finish_start-IsConsistent :
      (r : Engine Regex × Result RunState) → Ready r → IsConsistent (finish_start r).0
  unfolding finish_start set_running is_running
  finish_start-IsConsistent (e, ok state) (flag, routes) = record { flag = flag; routes = routes }
  finish_start-IsConsistent (e, err x) (idle, routes) =
      rw idle (record { flag = refl; routes = routes })

  open_device-Ready :
      (h : StartHost) (e : Engine Regex)
      → e.shared.running ≡ true
      → e.running ≡ none
      → Ready (open_device h e)
  unfolding open_device
  open_device-Ready h e flag idle = elim (Bool-cases h.opens) [
    | inl opens ↦ rw opens (flag, refl)
    | inr fails ↦ rw fails (idle, refl)
  ]

  create_adapter-Ready :
      (h : StartHost) (r : Result (Unit {0})) (e : Engine Regex)
      → e.shared.running ≡ true
      → e.running ≡ none
      → e.routed ≡ false
      → Ready (create_adapter h r e)
  unfolding create_adapter
  create_adapter-Ready h (ok u) e flag idle unrouted = open_device-Ready h e flag idle
  create_adapter-Ready h (err x) e flag idle unrouted = (idle, unrouted)

  start_inner-Ready :
      (h : StartHost) (e : Engine Regex)
      → e.shared.running ≡ true
      → e.running ≡ none
      → e.routed ≡ false
      → Ready (start_inner h e)
  unfolding start_inner set_iface
  start_inner-Ready h e flag idle unrouted = elim (Bool-cases (is_empty h.discovered)) [
    | inl empty ↦ rw empty (idle, unrouted)
    | inr found ↦
        rw found (create_adapter-Ready h h.create (set_iface h.discovered e) flag idle unrouted)
  ]

  none_of_idle : (e : Engine Regex) → is_running e ≡ false → e.running ≡ none
  unfolding is_running
  none_of_idle e h = elim (Option-cases e.running) [
    | inl idle ↦ idle
    | inr (state, e1) ↦ cc (rw e1 at h)
  ]

  start-IsConsistent :
      (h : StartHost) (e : Engine Regex) → IsConsistent e → IsConsistent (start h e).0
  unfolding start set_running
  start-IsConsistent h e v =
      let refused : Engine Regex × Result (Unit {0}) = (e, err Error.already_running) in
      let begun : Engine Regex × Result (Unit {0}) =
        finish_start (start_inner h (set_running true e)) in
      elim (Bool-cases e.shared.running) [
        | inl busy ↦
            subst (λ (b : Bool). IsConsistent (if b then refused else begun).0) (sym busy) v
        | inr free ↦
            let idle : e.running ≡ none = none_of_idle e (sym v.flag ∙ free) in
            let unrouted : e.routed ≡ false = v.routes ∙ ap has_adapter idle in
            subst (λ (b : Bool). IsConsistent (if b then refused else begun).0) (sym free)
              (finish_start-IsConsistent (start_inner h (set_running true e))
                (start_inner-Ready h (set_running true e) refl idle unrouted))
      ]

  Step-IsConsistent : {e f : Engine Regex} → Step e f → IsConsistent e → IsConsistent f
  Step-IsConsistent (started h e) v = start-IsConsistent h e v
  Step-IsConsistent (stopped e) v = stop-IsConsistent e v
  Step-IsConsistent (netstack_ended e) v = watchdog-IsConsistent e v
  Step-IsConsistent (dropped e) v = drop_engine-IsConsistent e v

  -- Whatever sequence of starts, stops, ends of the netstack and drops an engine goes through, with
  -- whatever answers of the operating system: if it was consistent at first it stays so, that is,
  -- the flag that `start` tests agrees with the state that the engine keeps, and routes exist exactly
  -- while that state holds an adapter.
  pub Reach-IsConsistent : {e f : Engine Regex} → IsConsistent e → Reach e f → IsConsistent f
  Reach-IsConsistent v built = v
  Reach-IsConsistent v (step r s) = Step-IsConsistent s (Reach-IsConsistent v r)
