-- ===== src/Netstack/Flow/Accept/Order.antt =====
-- The accept loop (src/netstack.rs, `run`): the tasks it spawns and the flows it counts.
use ace_tun.Base.{
  ℕ, ◌+◌, ◌<◌, ◌%◌, ◌^◌, List, [], ◌∷◌, ◌++◌, ◌≡◌, sym, ◌∙◌, arith, append-nil, append_assoc,
}
use ace_tun.Rule.Glob.{RegexCrate}
use ace_tun.State.{add_one}
use ace_tun.Netstack.Decide.{State}
use ace_tun.Netstack.Flow.Accept.{
  Accepted, tcp_stream, udp_stream, unknown_transport, unknown_network, accept_failed, shut_down,
  Task, tcp_task, udp_task, count_tcp, count_udp, run,
}

-- What came before the loop was told to end, or failed.
abbrev pub before_end : List Accepted → List Accepted
before_end [] = []
before_end (accept_failed ∷ more) = []
before_end (shut_down ∷ more) = []
before_end (a ∷ more) = a ∷ before_end more

abbrev pub tasks_of : List Accepted → List Task
tasks_of [] = []
tasks_of (tcp_stream src dest ∷ more) = tcp_task src dest ∷ tasks_of more
tasks_of (udp_stream src dest ∷ more) = udp_task src dest ∷ tasks_of more
tasks_of (a ∷ more) = tasks_of more

abbrev pub tcp_count : List Task → ℕ
tcp_count [] = 0
tcp_count (tcp_task src dest ∷ ts) = 1 + tcp_count ts
tcp_count (udp_task src dest ∷ ts) = tcp_count ts

abbrev pub udp_count : List Task → ℕ
udp_count [] = 0
udp_count (udp_task src dest ∷ ts) = 1 + udp_count ts
udp_count (tcp_task src dest ∷ ts) = udp_count ts

wrap_step : (a n : ℕ) → ((a + 1) % 2 ^ 64 + n) % 2 ^ 64 ≡ (a + (1 + n)) % 2 ^ 64
wrap_step a n = omega arith

add_one-bound : (a : ℕ) → add_one a < 2 ^ 64
unfolding add_one
add_one-bound a = omega arith

module _ (rx : RegexCrate) where
  -- From counters below 2^64, the loop spawns one task for each TCP or UDP flow that comes before
  -- the first failure or shutdown, in order and none for a flow after it, and adds their numbers to
  -- the two flow counters, modulo 2^64.
  pub run-tasks_of :
      (s : State rx) (tasks : List Task) (events : List Accepted)
      → s.stats.tcp_flows < 2 ^ 64
      → s.stats.udp_flows < 2 ^ 64
      → ((run rx s tasks events).1 ≡ tasks ++ tasks_of (before_end events))
        × ((run rx s tasks events).0.stats.tcp_flows
            ≡ (s.stats.tcp_flows + tcp_count (tasks_of (before_end events))) % 2 ^ 64)
        × ((run rx s tasks events).0.stats.udp_flows
            ≡ (s.stats.udp_flows + udp_count (tasks_of (before_end events))) % 2 ^ 64)
  unfolding run
  run-tasks_of s tasks [] t u = (sym (append-nil tasks), omega arith, omega arith)
  run-tasks_of s tasks (tcp_stream src dest ∷ more) t u =
      let (spawned, tcp, udp) =
        run-tasks_of (count_tcp rx s) (tasks ++ tcp_task src dest ∷ []) more
          (add_one-bound s.stats.tcp_flows) u in
      (
        spawned ∙ append_assoc tasks (tcp_task src dest ∷ []) (tasks_of (before_end more)),
        tcp ∙ wrap_step s.stats.tcp_flows (tcp_count (tasks_of (before_end more))),
        udp,
      )
  run-tasks_of s tasks (udp_stream src dest ∷ more) t u =
      let (spawned, tcp, udp) =
        run-tasks_of (count_udp rx s) (tasks ++ udp_task src dest ∷ []) more t
          (add_one-bound s.stats.udp_flows) in
      (
        spawned ∙ append_assoc tasks (udp_task src dest ∷ []) (tasks_of (before_end more)),
        tcp,
        udp ∙ wrap_step s.stats.udp_flows (udp_count (tasks_of (before_end more))),
      )
  run-tasks_of s tasks (unknown_transport ∷ more) t u = run-tasks_of s tasks more t u
  run-tasks_of s tasks (unknown_network ∷ more) t u = run-tasks_of s tasks more t u
  run-tasks_of s tasks (accept_failed ∷ more) t u =
      (sym (append-nil tasks), omega arith, omega arith)
  run-tasks_of s tasks (shut_down ∷ more) t u = (sym (append-nil tasks), omega arith, omega arith)
