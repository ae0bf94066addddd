-- ===== src/Engine.antt =====
-- src/lib.rs: the engine's life: started, stopped, dropped, and supervised by its watchdog. Each
-- operation is one step; what the operating system answers is a `StartHost`. `routed` says whether
-- the tunnel's adapter and its routes exist.
pub mod Build
pub mod Calls
pub mod Life
mod Tests
use ace_tun.Base.{ℕ, ◌*◌, Bool, true, false, Option, none, some, if◌then◌else◌, is_none}
use ace_tun.Text.{Text, codes}
use ace_tun.Error.{Error, Result, ok, err}
use ace_tun.Platform.{PhysicalInterface, is_empty, tun_mtu}
use ace_tun.State.{Shared}

-- `ipstack::IpStackConfig`, with the fields that the engine sets.
pub record IpStackConfig : Type 0 where
  pub mtu : ℕ
  pub tcp_timeout_secs : ℕ

abbrev pub tcp_session_timeout_secs : ℕ
tcp_session_timeout_secs = 15 * 60

unfoldable pub ipstack_config : IpStackConfig
ipstack_config = record { mtu = tun_mtu; tcp_timeout_secs = tcp_session_timeout_secs }

-- The adapter is present until somebody takes it to tear it down.
pub record RunState : Type 0 where
  pub adapter : Bool
  pub shutdown_sent : Bool

pub record Engine (Regex : Type 0) : Type 0 where
  pub shared : Shared Regex
  pub ipv6 : Bool
  pub running : Option RunState
  pub routed : Bool

-- The interface that is discovered, how `create` ends, and whether the device can be opened.
pub record StartHost : Type 0 where
  pub discovered : PhysicalInterface
  pub create : Result (Unit {0})
  pub opens : Bool

unfoldable pub or_set : PhysicalInterface → Option PhysicalInterface → Option PhysicalInterface
or_set i none = some i
or_set i (some j) = some j

module _ {Regex : Type 0} where
  unfoldable pub set_running : Bool → Engine Regex → Engine Regex
  set_running b e = record e { shared = record e.shared { running = b } }

  -- `OnceLock::set`: a second value is ignored.
  unfoldable pub set_iface : PhysicalInterface → Engine Regex → Engine Regex
  unfolding or_set
  set_iface i e = record e { shared = record e.shared { iface = or_set i e.shared.iface } }

  -- The adapter exists. If its device cannot be opened it is dropped at once.
  unfoldable pub open_device : StartHost → Engine Regex → Engine Regex × Result RunState
  open_device h e =
      if h.opens
      then (record e { routed = true }, ok (record { adapter = true; shutdown_sent = false }))
      else (record e { routed = false }, err (Error.io (codes "session")))

  create_adapter : StartHost → Result (Unit {0}) → Engine Regex → Engine Regex × Result RunState
  unfolding open_device
  create_adapter h (err x) e = (e, err x)
  create_adapter h (ok u) e = open_device h e

  unfoldable pub start_inner : StartHost → Engine Regex → Engine Regex × Result RunState
  unfolding create_adapter set_iface is_empty
  start_inner h e =
      if is_empty h.discovered
      then (e, err (Error.net_config (codes "discover_physical_interface")))
      else create_adapter h h.create (set_iface h.discovered e)

  unfoldable pub finish_start : Engine Regex × Result RunState → Engine Regex × Result (Unit {0})
  unfolding set_running
  finish_start (e, ok state) = (record e { running = some state }, ok tt)
  finish_start (e, err x) = (set_running false e, err x)

  unfoldable pub start : StartHost → Engine Regex → Engine Regex × Result (Unit {0})
  unfolding start_inner finish_start
  start h e =
      if e.shared.running
      then (e, err Error.already_running)
      else finish_start (start_inner h (set_running true e))

  -- The adapter is taken, if nobody has, and its routes go with it.
  unfoldable pub tear_down : RunState → Engine Regex → Engine Regex
  tear_down state e = if state.adapter then record e { routed = false } else e

  -- The netstack task has ended, by itself or by a panic: the watchdog tears the tunnel down.
  unfoldable pub watchdog : Engine Regex → Engine Regex
  unfolding tear_down
  watchdog e = elim e.running [
    | none ↦ e
    | some state ↦ record (tear_down state e) {
      running = some (record { adapter = false; shutdown_sent = state.shutdown_sent });
    }
  ]

  -- The state is taken, the shutdown is sent, and the watchdog, or `stop` itself, tears down.
  end_run : RunState → Engine Regex → Engine Regex
  unfolding tear_down set_running
  end_run state e = tear_down state (set_running false (record e { running = none }))

  unfoldable pub stop : Engine Regex → Engine Regex × Result (Unit {0})
  unfolding end_run
  stop e = elim e.running [
    | none ↦ (e, err Error.not_running)
    | some state ↦ (end_run state e, ok tt)
  ]

  -- `Drop for TunRedirect`.
  unfoldable pub drop_engine : Engine Regex → Engine Regex
  unfolding end_run
  drop_engine e = elim e.running [ none ↦ e | some state ↦ end_run state e ]

  unfoldable pub is_running : Engine Regex → Bool
  is_running e = elim e.running [ none ↦ false | some state ↦ true ]
