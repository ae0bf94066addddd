-- ===== src/Netstack/Flow/Udp.antt =====
-- src/netstack.rs: `handle_udp`. What the two sides of the flow do is a list of events, in the order
-- in which `select!` takes them; an unfinished list is a flow that is still open.
pub mod Datagrams
pub mod Snoop
use mathlib.Core.Option
use ace_tun.Base.{
  ℕ, Bool, true, false, Option, none, some, List, [], ◌∷◌, ◌++◌, ◌==◌, if◌then◌else◌, ◌>>=◌,
}
use ace_tun.Addr.{SocketAddr}
use ace_tun.Dns.{DnsCache, snoop_response}
use ace_tun.Rule.Glob.{RegexCrate}
use ace_tun.State.{Shared, Stats, add_one, iface}
use ace_tun.Netstack.Decide.{
  Decision, direct, proxy, block, FlowFacts, State, decide, is_group_address,
}
use ace_tun.Netstack.Flow.{Event, dialed, dropped, Host, FlowEnd, facts_of, report, count_blocked}

abbrev pub Datagram : Type 0
Datagram = List ℕ

pub data UdpEvent : Type 0 where
  -- Neither side gave anything for the idle timeout.
  timed_out : UdpEvent
  -- A read from the client's side failed.
  client_closed : UdpEvent
  -- What a read from the client's stream gives, and whether the socket took it. A read of no bytes
  -- is how a stream ends.
  from_client : Datagram → Bool → UdpEvent
  -- The receive failed.
  receive_failed : UdpEvent
  -- A datagram of the server, and whether the client's stream took it.
  from_server : Datagram → Bool → UdpEvent

-- The loop's state: the engine's state, what was sent to the server and written to the client, and
-- whether the flow is over.
pub record Relay (Regex : Type 0) : Type 0 where
  pub shared : Shared Regex
  pub sent : List Datagram
  pub written : List Datagram
  pub over : Bool

module _ {Regex : Type 0} where
  unfoldable pub count_send_error : Shared Regex → Shared Regex
  unfolding add_one
  count_send_error s = record s {
    stats = record s.stats { udp_send_errors = add_one s.stats.udp_send_errors };
  }

  unfoldable pub snoop : Bool → ℕ → Shared Regex → Datagram → Option (Shared Regex)
  unfolding snoop_response
  snoop is_dns now s d =
      if is_dns
      then Option.map (λ cache. record s { dns_cache = cache }) (snoop_response now s.dns_cache d)
      else some s

  -- One round of the loop. `none` is a panic.
  unfoldable pub udp_round : Bool → ℕ → Relay Regex → UdpEvent → Option (Relay Regex)
  unfolding count_send_error snoop
  udp_round is_dns now r timed_out = some (record r { over = true })
  udp_round is_dns now r client_closed = some (record r { over = true })
  udp_round is_dns now r (from_client [] taken) = some (record r { over = true })
  udp_round is_dns now r (from_client (b ∷ d) true) =
      some (record r { sent = r.sent ++ (b ∷ d) ∷ [] })
  udp_round is_dns now r (from_client (b ∷ d) false) =
      some (record r { shared = count_send_error r.shared })
  udp_round is_dns now r receive_failed = some (record r { over = true })
  udp_round is_dns now r (from_server d taken) = do
    s ← snoop is_dns now r.shared d
    some (
        if taken
        then record r { shared = s; written = r.written ++ d ∷ [] }
        else record r { shared = s; over = true })

  -- The loop, with the time of each event.
  unfoldable pub udp_loop : Bool → Relay Regex → List (ℕ × UdpEvent) → Option (Relay Regex)
  unfolding udp_round
  udp_loop is_dns r [] = some r
  udp_loop is_dns r ((now, e) ∷ events) = elim r.over [
    | true ↦ some r
    | false ↦ elim (udp_round is_dns now r e) [ none ↦ none | some q ↦ udp_loop is_dns q events ]
  ]

-- How the handler ends: blocked, without a socket, or with the state of its relay.
pub data UdpEnd (Regex : Type 0) : Type 0 where
  blocked : Shared Regex → List Event → UdpEnd Regex
  no_socket : Shared Regex → List Event → UdpEnd Regex
  relaying : Relay Regex → List Event → UdpEnd Regex

unfoldable pub opened : {Regex : Type 0} → Shared Regex → Relay Regex
opened s = record { shared = s; sent = []; written = []; over = false }

module _ (rx : RegexCrate) where
  -- The counter of a blocked flow goes by its destination.
  unfoldable pub count_udp_block : State rx → SocketAddr → State rx
  unfolding count_blocked
  count_udp_block s dest =
      if dest.port == s.quic_port
      then record s { stats = record s.stats { quic_dropped = add_one s.stats.quic_dropped } }
      else if is_group_address dest.ip
      then record s { stats = record s.stats { group_dropped = add_one s.stats.group_dropped } }
      else count_blocked rx s

  relay_udp :
      Host → State rx → SocketAddr → List (ℕ × UdpEvent) → List Event → Option (UdpEnd rx.Regex)
  unfolding udp_loop iface opened
  relay_udp h s dest events trace =
      if h.dial dest (iface s)
      then Option.map (λ r. relaying r trace) (udp_loop (dest.port == 53) (opened s) events)
      else some (no_socket s trace)

  serve_udp :
      Host
      → State rx
      → SocketAddr
      → List (ℕ × UdpEvent)
      → List Event
      → Decision
      → Option (UdpEnd rx.Regex)
  unfolding count_udp_block relay_udp
  serve_udp h s dest events trace block =
      some (blocked (count_udp_block s dest) (trace ++ dropped ∷ []))
  serve_udp h s dest events trace direct =
      relay_udp h s dest events (trace ++ dialed dest (iface s) ∷ [])
  serve_udp h s dest events trace (proxy id) =
      relay_udp h s dest events (trace ++ dialed dest (iface s) ∷ [])

  unfoldable pub handle_udp :
      Host → ℕ → State rx → SocketAddr → SocketAddr → List (ℕ × UdpEvent) → Option (UdpEnd rx.Regex)
  unfolding facts_of report serve_udp decide
  handle_udp h now s src dest events =
      let f = facts_of rx h now s src dest true in
      decide rx s f >>= λ d. serve_udp h s dest events (report rx s f d) d
