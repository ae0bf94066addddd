-- ===== src/Netstack/Flow/Udp/Datagrams.antt =====
-- The relay of a UDP flow (src/netstack.rs, `handle_udp`).
use ace_tun.Base.{ℕ, Bool, true, false, some, List, [], ◌∷◌, ◌≡◌, refl, inl, inr, Bool-cases}
use ace_tun.Dns.{snoop_response}
use ace_tun.Dns.Parse.Answers.{parse_dns_answers_total}
use ace_tun.State.{Shared}
use ace_tun.Netstack.Flow.Udp.{
  Datagram, UdpEvent, timed_out, client_closed, from_client, receive_failed, from_server, Relay,
  snoop, udp_round, udp_loop,
}

-- The events that leave a flow open.
abbrev pub GoesOn : ℕ × UdpEvent → Type 0
GoesOn (now, from_client [] taken) = ⊥
GoesOn (now, from_client (b ∷ d) taken) = Unit {0}
GoesOn (now, from_server d taken) = taken ≡ true
GoesOn (now, _) = ⊥

-- The datagrams that the socket took, and those that the server sent, in order.
abbrev pub taken_datagrams : List (ℕ × UdpEvent) → List Datagram
taken_datagrams [] = []
taken_datagrams ((now, from_client d true) ∷ es) = d ∷ taken_datagrams es
taken_datagrams ((now, _) ∷ es) = taken_datagrams es

abbrev pub server_datagrams : List (ℕ × UdpEvent) → List Datagram
server_datagrams [] = []
server_datagrams ((now, from_server d taken) ∷ es) = d ∷ server_datagrams es
server_datagrams ((now, _) ∷ es) = server_datagrams es

module _ {Regex : Type 0} (is_dns : Bool) where
  snoop_total :
      (now : ℕ) (s : Shared Regex) (d : Datagram)
      → (t : Shared Regex) × (snoop is_dns now s d ≡ some t)
  unfolding snoop snoop_response
  snoop_total now s d = elim (Bool-cases is_dns) [
    | inr plain ↦ (s, rw plain)
    | inl dns ↦ let (a, e) = parse_dns_answers_total d in rw (dns, e) (_, refl)
  ]

  round_total :
      (now : ℕ) (r : Relay Regex) (e : UdpEvent)
      → (q : Relay Regex) × (udp_round is_dns now r e ≡ some q)
  unfolding udp_round
  round_total now r timed_out = (_, refl)
  round_total now r client_closed = (_, refl)
  round_total now r (from_client [] taken) = (_, refl)
  round_total now r (from_client (b ∷ d) true) = (_, refl)
  round_total now r (from_client (b ∷ d) false) = (_, refl)
  round_total now r receive_failed = (_, refl)
  round_total now r (from_server d taken) =
      let (s, e) = snoop_total now r.shared d in rw e (_, refl)

  -- Whatever the two sides send, in whatever order, the loop does not panic.
  udp_loop_total :
      (r : Relay Regex) (events : List (ℕ × UdpEvent))
      → (q : Relay Regex) × (udp_loop is_dns r events ≡ some q)
  unfolding udp_loop
  udp_loop_total r [] = (r, refl)
  udp_loop_total r ((now, e) ∷ events) = elim (Bool-cases r.over) [
    | inl over ↦ rw (udp_loop, over) (r, refl)
    | inr unfinished ↦
        let (q, step) = round_total now r e in
        rw (udp_loop, unfinished, step) (udp_loop_total q events)
  ]
