-- ===== src/Netstack/Flow/Accept.antt =====
-- src/netstack.rs: `run`, the accept loop. What it takes is a list; each flow is handed to a task of
-- its own.
pub mod Order
use ace_tun.Base.{
  ℕ, ◌+◌, ◌≤◌, Bool, true, false, Option, none, some, List, [], ◌∷◌, ◌++◌, ◌≡◌, refl, length, arith,
}
use ace_tun.Addr.{SocketAddr}
use ace_tun.Rule.Glob.{RegexCrate}
use ace_tun.State.{Shared, Stats, add_one}
use ace_tun.Netstack.Decide.{State}
use ace_tun.Netstack.Flow.{Event, log}

pub data Accepted : Type 0 where
  tcp_stream udp_stream : SocketAddr → SocketAddr → Accepted
  unknown_transport unknown_network : Accepted
  -- `accept` failed, or the shutdown channel fired.
  accept_failed shut_down : Accepted

pub data Task : Type 0 where
  tcp_task udp_task : SocketAddr → SocketAddr → Task

module _ (rx : RegexCrate) where
  unfoldable pub count_tcp : State rx → State rx
  unfolding add_one
  count_tcp s = record s { stats = record s.stats { tcp_flows = add_one s.stats.tcp_flows } }

  unfoldable pub count_udp : State rx → State rx
  unfolding add_one
  count_udp s = record s { stats = record s.stats { udp_flows = add_one s.stats.udp_flows } }

  -- The state, the tasks spawned, and whether the loop has ended.
  unfoldable pub run : State rx → List Task → List Accepted → State rx × List Task × Bool
  unfolding count_tcp count_udp
  run s tasks [] = (s, tasks, false)
  run s tasks (tcp_stream src dest ∷ more) =
      run (count_tcp s) (tasks ++ tcp_task src dest ∷ []) more
  run s tasks (udp_stream src dest ∷ more) =
      run (count_udp s) (tasks ++ udp_task src dest ∷ []) more
  run s tasks (unknown_transport ∷ more) = run s tasks more
  run s tasks (unknown_network ∷ more) = run s tasks more
  run s tasks (accept_failed ∷ more) = (s, tasks, true)
  run s tasks (shut_down ∷ more) = (s, tasks, true)
