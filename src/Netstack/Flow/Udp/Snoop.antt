-- ===== src/Netstack/Flow/Udp/Snoop.antt =====
-- What a relayed DNS response means for the flows after it (src/dns.rs, src/netstack.rs).
use ace_tun.Base.{
  ℕ, ◌+◌, Bool, true, false, not, ◌&&◌, Option, none, some, List, [], ◌∷◌, ◌++◌, ◌≡◌, refl, ap, ◌∙◌,
  arith, ltb, is_nil, if◌then◌else◌, or_else,
}
use ace_tun.Text.{Text}
use ace_tun.Addr.{IpAddr, SocketAddr, ip_eq}
use ace_tun.Dns.{DnsCache, store, lookup, store_all, snoop_response}
use ace_tun.Dns.Parse.{parse_dns_answers}
use ace_tun.Dns.Cache.{lookup-store}
use ace_tun.Rule.Glob.{RegexCrate}
use ace_tun.Rule.Compile.{needs_domain_resolution}
use ace_tun.Netstack.Decide.{State}
use ace_tun.Netstack.Flow.{Host, domain_for, facts_of}
use ace_tun.Netstack.Flow.Udp.{Relay, from_server, udp_round}

-- The last name that the answers give an address; an answer without a name says nothing.
abbrev pub named : IpAddr → List (IpAddr × Text) → Option Text
named ip [] = none
named ip ((k, name) ∷ answers) =
    or_else (named ip answers) (if not (is_nil name) && ip_eq k ip then some name else none)

-- A name while it is fresh, and else what was known before.
abbrev pub known : Bool → Option Text → Option Text → Option Text
known fresh none before = before
known fresh (some name) before = if fresh then some name else none

store_kept :
    (now : ℕ) (c : DnsCache) (ip : IpAddr) (name : Text)
    → ((store now c ip name).ttl ≡ c.ttl) × ((store now c ip name).poisoned ≡ c.poisoned)
unfolding store
store_kept now c ip name = ground arith

lookup-store_all :
    (now later : ℕ) (q : IpAddr) (c : DnsCache) (answers : List (IpAddr × Text))
    → c.poisoned ≡ false
    → lookup later (store_all now c answers) q
      ≡ known (ltb later (now + c.ttl)) (named q answers) (lookup later c q)
unfolding store_all
lookup-store_all now later q c [] h = refl
lookup-store_all now later q c ((ip, name) ∷ answers) h =
    let (same_ttl, same_lock) = store_kept now c ip name in
    ground (
      arith,
      lookup-store_all now later q (store now c ip name) answers (same_lock ∙ h),
      lookup-store c ip q name now later,
      same_ttl,
    )

module _ (rx : RegexCrate) where
  snooped : ℕ → State rx → List (IpAddr × Text) → State rx
  snooped now s answers = record s { dns_cache = store_all now s.dns_cache answers }

  after_round : ℕ → Relay rx.Regex → List ℕ → Bool → List (IpAddr × Text) → Relay rx.Regex
  after_round now r d taken answers =
      if taken
      then record r { shared = snooped now r.shared answers; written = r.written ++ d ∷ [] }
      else record r { shared = snooped now r.shared answers; over = true }

  after_round-shared :
      (now : ℕ) (r : Relay rx.Regex) (d : List ℕ) (taken : Bool) (answers : List (IpAddr × Text))
      → (after_round now r d taken answers).shared ≡ snooped now r.shared answers
  unfolding after_round
  after_round-shared now r d true answers = refl
  after_round-shared now r d false answers = refl

  udp_round-snooped :
      (now : ℕ) (r : Relay rx.Regex) (d : List ℕ) (taken : Bool) (answers : List (IpAddr × Text))
      → parse_dns_answers d ≡ some answers
      → udp_round true now r (from_server d taken) ≡ some (after_round now r d taken answers)
  unfolding udp_round snoop_response after_round snooped
  udp_round-snooped now r d taken answers parsed = rw parsed

  domain_for-snooped :
      (now later : ℕ) (s : State rx) (ip : IpAddr) (answers : List (IpAddr × Text))
      → s.dns_cache.poisoned ≡ false
      → needs_domain_resolution s.rules ≡ true
      → domain_for rx later (snooped now s answers) ip
        ≡ known (ltb later (now + s.dns_cache.ttl)) (named ip answers) (domain_for rx later s ip)
  unfolding domain_for snooped
  domain_for-snooped now later s ip answers lock needs =
      rw needs (lookup-store_all now later ip s.dns_cache answers lock)

  -- If the rules need domains and no thread has panicked over the cache, a response that the relay of
  -- a DNS flow takes from the server decides the domain of a flow that comes later with the cache as
  -- this round leaves it, whether the client's stream took the datagram or not: the last name that
  -- the answers give to the flow's destination, if the flow comes before the name expires, and no
  -- domain if it comes after; and what the flow would have been given before the round, where the
  -- answers give the destination no name.
  pub udp_round-domain :
      (now later : ℕ) (r : Relay rx.Regex) (d : List ℕ) (taken : Bool)
      (answers : List (IpAddr × Text))
      → parse_dns_answers d ≡ some answers
      → r.shared.dns_cache.poisoned ≡ false
      → needs_domain_resolution r.shared.rules ≡ true
      → (h : Host) (src dest : SocketAddr) (is_udp : Bool)
      → (q : Relay rx.Regex) × (udp_round true now r (from_server d taken) ≡ some q)
        × ((facts_of rx h later q.shared src dest is_udp).domain
            ≡ known
                (ltb later (now + r.shared.dns_cache.ttl))
                (named dest.ip answers)
                (facts_of rx h later r.shared src dest is_udp).domain)
  unfolding facts_of
  udp_round-domain now later r d taken answers parsed lock needs h src dest is_udp = (
    after_round now r d taken answers,
    udp_round-snooped now r d taken answers parsed,
    ap (λ (s : State rx). domain_for rx later s dest.ip) (after_round-shared now r d taken answers)
        ∙ domain_for-snooped now later r.shared dest.ip answers lock needs,
  )
