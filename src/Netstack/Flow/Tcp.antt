-- ===== src/Netstack/Flow/Tcp.antt =====
-- The handler of a TCP flow (src/netstack.rs, `handle_tcp`): what each decision lets it do.
use ace_tun.Base.{
  ℕ, Bool, true, false, Option, none, some, List, [], ◌∷◌, ◌++◌, ◌≡◌, ◌≢◌, refl, inl, inr, All,
  All-append, Bool-cases, if◌then◌else◌,
}
use ace_tun.Addr.{SocketAddr}
use ace_tun.Config.{ProxyConfig}
use ace_tun.Proxy.Target.{Target}
use ace_tun.Rule.Glob.{RegexCrate}
use ace_tun.State.{iface, find_proxy_config}
use ace_tun.Netstack.Decide.{Decision, direct, proxy, block, FlowFacts, State, decide}
use ace_tun.Netstack.Flow.{
  Event, reported, logged, dialed, tunneled, relayed, dropped, shut_down, Host, FlowEnd, facts_of,
  report, log, action_of, count_blocked, count_fallback, fail_closed, target_for, relay_proxied,
  connects, serve_proxied, serve_tcp, handle_tcp,
}

-- No byte was copied and no socket opened to a destination.
abbrev pub Closed : Event → Type 0
Closed relayed = ⊥
Closed (dialed dest i) = ⊥
Closed _ = Unit {0}

module _ (rx : RegexCrate) (s : State rx) (f : FlowFacts) where
  -- What a decision permits: a socket to the destination only for a direct flow, and then by a
  -- dial that is given the discovered interfaces; a tunnel only for a proxied flow, through the configuration found for
  -- it; bytes only for a flow that is not blocked.
  abbrev pub Permitted : Decision → Event → Type 0
  Permitted d (reported info) = info.action ≡ action_of rx d
  Permitted d logged = Unit {0}
  Permitted d (dialed dest i) = (d ≡ direct) × (dest ≡ f.dest) × (i ≡ iface s)
  Permitted d (tunneled c target) = (id : ℕ) × (d ≡ proxy id) × (find_proxy_config s id ≡ some c)
  Permitted d relayed = d ≢ block
  Permitted d dropped = d ≡ block
  Permitted d shut_down = (id : ℕ) × (d ≡ proxy id)

  report-Permitted : (d : Decision) → All (Permitted d) (report rx s f d)
  unfolding report
  report-Permitted d = elim (Bool-cases s.conn_cb) [
    | inl set ↦ rw set (refl, tt)
    | inr unset ↦ rw unset tt
  ]

  log-Permitted : (d : Decision) → All (Permitted d) (log rx s)
  unfolding log
  log-Permitted d = elim (Bool-cases s.log_cb) [
    | inl set ↦ rw set (tt, tt)
    | inr unset ↦ rw unset tt
  ]

  fail_closed-Permitted :
      (id : ℕ) (t : List Event)
      → All (Permitted (proxy id)) t
      → All (Permitted (proxy id)) (fail_closed rx s t).trace
  unfolding fail_closed
  fail_closed-Permitted id t h =
      All-append _ t _ h (All-append _ (log rx s) _ (log-Permitted (proxy id)) ((id, refl), tt))

  serve_proxied-Permitted :
      (h : Host) (id : ℕ) (t : List Event) (c : Option ProxyConfig)
      → find_proxy_config s id ≡ c
      → All (Permitted (proxy id)) t
      → All (Permitted (proxy id)) (serve_proxied rx h s f t c).trace
  unfolding serve_proxied relay_proxied
  serve_proxied-Permitted h id t none e p = fail_closed-Permitted id t p
  serve_proxied-Permitted h id t (some c) e p =
      let target : Target = target_for rx c f.domain f.dest in
      let asked : All (Permitted (proxy id)) (t ++ tunneled c target ∷ []) =
        All-append _ t _ p ((id, refl, e), tt) in
      elim (Bool-cases (connects h c target)) [
        | inl up ↦ rw up (All-append _ (t ++ tunneled c target ∷ []) _ asked ((λ q. cc), tt))
        | inr down ↦ rw down (fail_closed-Permitted id (t ++ tunneled c target ∷ []) asked)
      ]

  serve_tcp-Permitted :
      (h : Host) (t : List Event) (d : Decision)
      → All (Permitted d) t
      → All (Permitted d) (serve_tcp rx h s f t d).trace
  unfolding serve_tcp
  serve_tcp-Permitted h t block p = All-append _ t _ p (refl, tt)
  serve_tcp-Permitted h t direct p =
      let dialing : All (Permitted direct) (t ++ dialed f.dest (iface s) ∷ []) =
        All-append _ t _ p ((refl, refl, refl), tt) in
      elim (Bool-cases (h.dial f.dest (iface s))) [
        | inl up ↦
            rw up (All-append _ (t ++ dialed f.dest (iface s) ∷ []) _ dialing ((λ q. cc), tt))
        | inr down ↦ rw down dialing
      ]
  serve_tcp-Permitted h t (proxy id) p =
      serve_proxied-Permitted h id t (find_proxy_config s id) refl p

  report-Closed : (d : Decision) → All Closed (report rx s f d)
  unfolding report
  report-Closed d = elim (Bool-cases s.conn_cb) [
    | inl set ↦ rw set (tt, tt)
    | inr unset ↦ rw unset tt
  ]

  fail_closed-Closed : (t : List Event) → All Closed t → All Closed (fail_closed rx s t).trace
  unfolding fail_closed log
  fail_closed-Closed t h = All-append Closed t _ h (logged_Closed s.log_cb)
    where
      logged_Closed : (b : Bool) → All Closed ((if b then logged ∷ [] else []) ++ shut_down ∷ [])
      logged_Closed true = (tt, (tt, tt))
      logged_Closed false = (tt, tt)

  serve_proxied-Closed :
      (h : Host) (id : ℕ) (t : List Event) (c : Option ProxyConfig)
      → find_proxy_config s id ≡ c
      → ((c : ProxyConfig) (a : Target) → find_proxy_config s id ≡ some c → connects h c a ≡ false)
      → All Closed t
      → (asked : List Event) × (serve_proxied rx h s f t c ≡ fail_closed rx s asked)
        × All Closed asked
  unfolding serve_proxied relay_proxied
  serve_proxied-Closed h id t none e down p = (t, refl, p)
  serve_proxied-Closed h id t (some c) e down p =
      let target : Target = target_for rx c f.domain f.dest in
      (t ++ tunneled c target ∷ [], rw (down c target e), All-append Closed t _ p (tt, tt))

module _ (rx : RegexCrate) (h : Host) (now : ℕ) (s : State rx) (src dest : SocketAddr) where
  abbrev pub facts : FlowFacts
  facts = facts_of rx h now s src dest false

  -- Once a TCP flow is decided, the handler returns and does only what the decision permits: it
  -- reports the decision's own action, dials the destination only for a direct flow and with the
  -- interfaces that the engine knows, asks for a tunnel only for a proxied flow and through the
  -- configuration found for its id, drops only a blocked flow, shuts down only a proxied one, and
  -- copies bytes only for a flow that is not blocked.
  pub handle_tcp-Permitted :
      (d : Decision)
      → decide rx s facts ≡ some d
      → (e : FlowEnd rx.Regex) × (handle_tcp rx h now s src dest ≡ some e)
        × All (Permitted rx s facts d) e.trace
  unfolding handle_tcp
  handle_tcp-Permitted d e =
      let end : FlowEnd rx.Regex = serve_tcp rx h s facts (report rx s facts d) d in
      (
        end,
        rw e,
        serve_tcp-Permitted rx s facts h (report rx s facts d) d (report-Permitted rx s facts d),
      )

  -- If a TCP flow must be proxied and no tunnel can be had, because there is no configuration or
  -- the proxy refuses, then the handler returns `Ok`, counts one fallback and one blocked flow,
  -- copies no byte and opens no socket to the destination.
  pub handle_tcp_unreachable_proxy :
      (id : ℕ)
      → decide rx s facts ≡ some (proxy id)
      → ((c : ProxyConfig) (t : Target) → find_proxy_config s id ≡ some c → connects h c t ≡ false)
      → (e : FlowEnd rx.Regex) × (handle_tcp rx h now s src dest ≡ some e)
        × (e.shared ≡ count_blocked rx (count_fallback rx s))
        × (e.is_ok ≡ true)
        × All (Closed) e.trace
  unfolding handle_tcp serve_tcp fail_closed
  handle_tcp_unreachable_proxy id e down =
      let (asked, same, closed) =
        serve_proxied-Closed rx s facts h id (report rx s facts (proxy id)) (find_proxy_config s id)
          refl down (report-Closed rx s facts (proxy id)) in
      (fail_closed rx s asked, rw (e, same), refl, refl, fail_closed-Closed rx s facts asked closed)
