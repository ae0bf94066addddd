-- ===== src/Proxy/Socks5/Credentials.antt =====
-- What the SOCKS5 client (src/proxy.rs, `socks5_connect`) writes when it is not asked for
-- credentials.
use ace_tun.Base.{
  ℕ, ◌+◌, Bool, true, false, not, ◌||◌, List, [], ◌∷◌, ◌++◌, ◌≡◌, ◌≢◌, ◌⊎◌, refl, ap, ◌∙◌, arith,
  ltb, ◌==◌, Bool-cases, inl, inr, length,
}
use ace_tun.Config.{ProxyConfig}
use ace_tun.Proxy.Target.{Target}
use ace_tun.Proxy.Stream.{
  IoResult, ok, err, panic, Conn, Step, continue, pure, write_all, write_as, read_exact,
}
use ace_tun.Proxy.Stream.Laws.{read_exact-append}
use ace_tun.Proxy.Socks5.{
  build_socks5_connect_request, drain_bytes, drain_domain, drain_address, check_reply,
  read_socks5_reply, authenticate, request_tunnel, socks5_connect,
}
use ace_tun.Proxy.Socks5.Handshake.{greeting}

-- A step that writes nothing.
abbrev IsSilent {ℓ} : {A : Type ℓ} → Step A → Type 0
IsSilent m = (c : Conn) → (m c).1.sent ≡ c.sent

read_exact-IsSilent : (n : ℕ) → IsSilent (read_exact n)
unfolding read_exact
read_exact-IsSilent n c = elim (Bool-cases (ltb (length c.input) n)) [
  | inl short ↦ rw short refl
  | inr long ↦ rw long refl
]

continue-sent {ℓ κ} :
    {A : Type ℓ} {B : Type κ} (f : A → Step B) (r : IoResult A × Conn)
    → ((a : A) → IsSilent (f a))
    → (continue f r).1.sent ≡ r.1.sent
continue-sent f (ok a, c) h = h a c
continue-sent f (err e, c) h = refl
continue-sent f (panic, c) h = refl

drain_bytes-IsSilent : (n : ℕ) → IsSilent (drain_bytes n)
unfolding drain_bytes
drain_bytes-IsSilent n c = elim (Bool-cases (ltb 270 n)) [
  | inl long ↦ rw long refl
  | inr fits ↦ rw fits (
      continue-sent (λ (s : List ℕ). pure (ok tt)) (read_exact n c) (λ a d. refl)
      ∙ read_exact-IsSilent n c)
]

drain_domain-IsSilent : (bytes : List ℕ) → IsSilent (drain_domain bytes)
unfolding drain_domain
drain_domain-IsSilent [] c = refl
drain_domain-IsSilent (d ∷ []) c = drain_bytes-IsSilent (d + 2) c
drain_domain-IsSilent (d ∷ e ∷ bytes) c = refl

drain_address-IsSilent : (atyp : ℕ) → IsSilent (drain_address atyp)
unfolding drain_address
drain_address-IsSilent atyp c = elim (Bool-cases (atyp == 1)) [
  | inl one ↦ rw one (drain_bytes-IsSilent 6 c)
  | inr not_one ↦ elim (Bool-cases (atyp == 4)) [
    | inl four ↦ rw (not_one, four) (drain_bytes-IsSilent 18 c)
    | inr not_four ↦ elim (Bool-cases (atyp == 3)) [
      | inl three ↦
          rw (not_one, not_four, three)
            (continue-sent drain_domain (read_exact 1 c) drain_domain-IsSilent
              ∙ read_exact-IsSilent 1 c)
      | inr unknown ↦ rw (not_one, not_four, unknown) refl
    ]
  ]
]

check_reply-IsSilent : (header : List ℕ) → IsSilent (check_reply header)
unfolding check_reply
check_reply-IsSilent (version ∷ reply ∷ reserved ∷ atyp ∷ []) c =
    elim (Bool-cases (not (version == 5) || not (reply == 0))) [
      | inl refused ↦ rw refused refl
      | inr accepted ↦ rw accepted (drain_address-IsSilent atyp c)
    ]
check_reply-IsSilent [] c = refl
check_reply-IsSilent (a ∷ []) c = refl
check_reply-IsSilent (a ∷ b ∷ []) c = refl
check_reply-IsSilent (a ∷ b ∷ d ∷ []) c = refl
check_reply-IsSilent (a ∷ b ∷ d ∷ e ∷ f ∷ more) c = refl

read_socks5_reply-IsSilent : IsSilent read_socks5_reply
unfolding read_socks5_reply
read_socks5_reply-IsSilent c =
    continue-sent check_reply (read_exact 4 c) check_reply-IsSilent ∙ read_exact-IsSilent 4 c

module _ (cfg : ProxyConfig) (dest : Target) where
  -- Nothing, the greeting, or the greeting and the request.
  abbrev pub IsUncredentialed : List ℕ → Type 0
  IsUncredentialed sent =
      (sent ≡ [])
      ⊎ (sent ≡ greeting cfg)
      ⊎ ((request : List ℕ) × (build_socks5_connect_request dest ≡ ok request)
          × (sent ≡ greeting cfg ++ request))

  asked :
      (request : List ℕ) (writes : List Bool) (c : Conn)
      → build_socks5_connect_request dest ≡ ok request
      → c.sent ≡ greeting cfg
      → IsUncredentialed
          (continue (λ (u : Unit {0}). read_socks5_reply) (write_as writes request c)).1.sent
  unfolding write_as
  asked request [] c built sent =
      inr (
        inr (request, built, read_socks5_reply-IsSilent _ ∙ ap (λ (s : List ℕ). s ++ request) sent))
  asked request (true ∷ more) c built sent =
      inr (
        inr (request, built, read_socks5_reply-IsSilent _ ∙ ap (λ (s : List ℕ). s ++ request) sent))
  asked request (false ∷ more) c built sent = inr (inl sent)

  requested :
      (r : IoResult (List ℕ)) (c : Conn)
      → build_socks5_connect_request dest ≡ r
      → c.sent ≡ greeting cfg
      → IsUncredentialed
          (continue
            (λ (bytes : List ℕ) (d : Conn).
              continue (λ (u : Unit {0}). read_socks5_reply) (write_all bytes d))
            (r, c)).1.sent
  unfolding write_all
  requested (ok request) c built sent = asked request c.writes c built sent
  requested (err e) c built sent = inr (inl sent)
  requested panic c built sent = inr (inl sent)

  after_method :
      (version method : ℕ) (c : Conn)
      → method ≢ 2
      → c.sent ≡ greeting cfg
      → IsUncredentialed
          (continue
            (λ (u : Unit {0}). request_tunnel dest)
            (authenticate cfg (version ∷ method ∷ []) c)).1.sent
  unfolding authenticate request_tunnel
  after_method version method c other sent = elim (Bool-cases (version == 5)) [
    | inr wrong ↦ rw wrong (inr (inl sent))
    | inl five ↦ elim (Bool-cases (method == 0)) [
      | inl open_proxy ↦
          rw (five, open_proxy) (requested (build_socks5_connect_request dest) c refl sent)
      | inr closed ↦
          let unasked : (method == 2) ≡ false = ground arith in
          rw (five, closed, unasked) (inr (inl sent))
    ]
  ]

  -- Unless the proxy chooses the method 2, user name and password, the client has written at most
  -- the greeting and the request when it ends, whatever the proxy sends and whichever writes fail.
  pub socks5_connect-IsUncredentialed :
      (version method : ℕ) (rest : List ℕ) (writes : List Bool)
      → method ≢ 2
      → IsUncredentialed
          (socks5_connect cfg dest
            (record { input = version ∷ method ∷ rest; sent = []; writes = writes })).1.sent
  unfolding socks5_connect write_all write_as
  socks5_connect-IsUncredentialed version method rest [] other =
      let c : Conn = record { input = version ∷ method ∷ rest; sent = greeting cfg; writes = [] } in
      rw (read_exact-append c (version ∷ method ∷ []) rest refl)
        (after_method version method (record c { input = rest }) other refl)
  socks5_connect-IsUncredentialed version method rest (true ∷ more) other =
      let c : Conn = record {
        input = version ∷ method ∷ rest;
        sent = greeting cfg;
        writes = more;
      } in
      rw (read_exact-append c (version ∷ method ∷ []) rest refl)
        (after_method version method (record c { input = rest }) other refl)
  socks5_connect-IsUncredentialed version method rest (false ∷ more) other = inl refl
