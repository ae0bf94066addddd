-- ===== src/Proxy/Socks5/Reply/Sound.antt =====
-- What a success of `read_socks5_reply` (src/proxy.rs) says of the bytes that came.
use ace_tun.Base.{
  ℕ, ◌+◌, ◌<◌, ◌≤◌, false, List, [], ◌∷◌, ◌++◌, ◌≡◌, sym, ap, ◌∙◌, arith, length, subst, ltb, ◌==◌,
  ==_iff, append_assoc, All, Bool-cases, inl, inr,
}
use ace_tun.Proxy.Stream.{IoResult, ok, err, panic, Conn, continue, pure, read_exact}
use ace_tun.Proxy.Stream.Laws.{read_exact-Reads, Reads}
use ace_tun.Proxy.Socks5.{drain_bytes, drain_domain, drain_address, check_reply, read_socks5_reply}
use ace_tun.Proxy.Socks5.Reply.{Accepting, v4_bound, v6_bound, domain_bound}

-- A success has consumed an accepting reply and nothing else; there is no panic.
abbrev pub Outcome : Conn → IoResult (Unit {0}) × Conn → Type 0
Outcome c (ok u, d) =
    (reply : List ℕ) × Accepting reply
    × (c.input ≡ reply ++ d.input)
    × (d ≡ record c { input = d.input })
Outcome c (err e, d) = Unit {0}
Outcome c (panic, d) = ⊥

abbrev Drains : ℕ → Conn → IoResult (Unit {0}) × Conn → Type 0
Drains n c (ok u, d) =
    (xs : List ℕ) × (c.input ≡ xs ++ d.input) × (length xs ≡ n) × (d ≡ record c { input = d.input })
Drains n c (err e, d) = Unit {0}
Drains n c (panic, d) = ⊥

drained :
    (n : ℕ) (c : Conn) (r : IoResult (List ℕ) × Conn)
    → Reads n c r
    → Drains n c (continue (λ (s : List ℕ). pure (ok tt)) r)
drained n c (ok xs, d) (e, len, same) = (xs, e, len, same)
drained n c (err e, d) h = tt
drained n c (panic, d) h = elim h [ ]

drain_bytes-Drains : (n : ℕ) (c : Conn) → n ≤ 270 → Drains n c (drain_bytes n c)
unfolding drain_bytes
drain_bytes-Drains n c h =
    let fits : ltb 270 n ≡ false = ground arith in
    rw fits (drained n c (read_exact n c) (read_exact-Reads n c))

-- A drain behind a prefix that was read from the stream `c` before.
behind :
    (n : ℕ) (c d : Conn) (prefix : List ℕ) (r : IoResult (Unit {0}) × Conn)
    → c.input ≡ prefix ++ d.input
    → d ≡ record c { input = d.input }
    → ((bound : List ℕ) → length bound ≡ n → Accepting (prefix ++ bound))
    → Drains n d r
    → Outcome c r
behind n c d prefix (ok u, f) e same accepts (xs, g, len, kept) = (
  prefix ++ xs,
  accepts xs len,
  e ∙ ap (λ (t : List ℕ). prefix ++ t) g ∙ sym (append_assoc prefix xs f.input),
  kept ∙ ap (λ (k : Conn). record k { input = f.input }) same,
)
behind n c d prefix (err e, f) h same accepts g = tt
behind n c d prefix (panic, f) h same accepts g = elim g [ ]

after_length :
    (c d : Conn) (v : ℕ) (r : IoResult (List ℕ) × Conn)
    → All (λ (b : ℕ). b < 256) d.input
    → c.input ≡ (5 ∷ 0 ∷ v ∷ 3 ∷ []) ++ d.input
    → d ≡ record c { input = d.input }
    → Reads 1 d r
    → Outcome c (continue drain_domain r)
unfolding drain_domain
after_length c d v (ok (b ∷ []), f) small e same (g, len, kept) =
    let byte : b < 256 = (subst (All (λ (b : ℕ). b < 256)) g small).0 in
    behind (b + 2) c f (5 ∷ 0 ∷ v ∷ 3 ∷ b ∷ []) (drain_bytes (b + 2) f)
      (e ∙ ap (λ (t : List ℕ). (5 ∷ 0 ∷ v ∷ 3 ∷ []) ++ t) g)
      (kept ∙ ap (λ (k : Conn). record k { input = f.input }) same)
      (λ bound l. domain_bound v b bound (omega (arith, byte)) l)
      (drain_bytes-Drains (b + 2) f (omega (arith, byte)))
after_length c d v (ok [], f) small e same (g, len, kept) = absurd (omega (arith, len))
after_length c d v (ok (b ∷ b2 ∷ bs), f) small e same (g, len, kept) = absurd (omega (arith, len))
after_length c d v (err x, f) small e same h = tt
after_length c d v (panic, f) small e same h = elim h [ ]

All-behind : (xs ys : List ℕ) → All (λ (b : ℕ). b < 256) (xs ++ ys) → All (λ (b : ℕ). b < 256) ys
All-behind [] ys h = h
All-behind (x ∷ xs) ys (hx, h) = All-behind xs ys h

address_Outcome :
    (c d : Conn) (v atyp : ℕ)
    → All (λ (b : ℕ). b < 256) d.input
    → c.input ≡ (5 ∷ 0 ∷ v ∷ atyp ∷ []) ++ d.input
    → d ≡ record c { input = d.input }
    → Outcome c (drain_address atyp d)
unfolding drain_address
address_Outcome c d v atyp small e same = elim (Bool-cases (atyp == 1)) [
  | inl one ↦
      let is : atyp ≡ 1 = (==_iff _ _).0 one in
      rw one (
        behind 6 c d (5 ∷ 0 ∷ v ∷ 1 ∷ []) (drain_bytes 6 d) (rw (sym is) e) same
          (λ bound l. v4_bound v bound l) (drain_bytes-Drains 6 d (omega arith)))
  | inr not_one ↦ elim (Bool-cases (atyp == 4)) [
    | inl four ↦
        let is : atyp ≡ 4 = (==_iff _ _).0 four in
        rw (not_one, four)
          (behind 18 c d (5 ∷ 0 ∷ v ∷ 4 ∷ []) (drain_bytes 18 d) (rw (sym is) e) same
            (λ bound l. v6_bound v bound l) (drain_bytes-Drains 18 d (omega arith)))
    | inr not_four ↦ elim (Bool-cases (atyp == 3)) [
      | inl three ↦
          let is : atyp ≡ 3 = (==_iff _ _).0 three in
          rw (not_one, not_four, three)
            (after_length c d v (read_exact 1 d) small
              (e ∙ ap (λ (t : ℕ). (5 ∷ 0 ∷ v ∷ t ∷ []) ++ d.input) is) same (read_exact-Reads 1 d))
      | inr unknown ↦ rw (not_one, not_four, unknown) tt
    ]
  ]
]

header_Outcome :
    (c : Conn) (r : IoResult (List ℕ) × Conn)
    → All (λ (b : ℕ). b < 256) c.input
    → Reads 4 c r
    → Outcome c (continue check_reply r)
unfolding check_reply
header_Outcome c (ok (version ∷ status ∷ v ∷ atyp ∷ []), d) small (e, len, same) =
    elim (Bool-cases (version == 5)) [
      | inr other ↦ rw other tt
      | inl five ↦ elim (Bool-cases (status == 0)) [
        | inr refused ↦ rw (five, refused) tt
        | inl zero ↦
            let is : version ≡ 5 = (==_iff _ _).0 five in
            let accepted : status ≡ 0 = (==_iff _ _).0 zero in
            rw (five, zero)
              (address_Outcome c d v atyp
                (All-behind (version ∷ status ∷ v ∷ atyp ∷ []) d.input
                  (subst (All (λ (b : ℕ). b < 256)) e small))
                (e
                  ∙ ap (λ (t : ℕ). (t ∷ status ∷ v ∷ atyp ∷ []) ++ d.input) is
                  ∙ ap (λ (t : ℕ). (5 ∷ t ∷ v ∷ atyp ∷ []) ++ d.input) accepted)
                same)
      ]
    ]
header_Outcome c (ok [], d) small (e, len, same) = absurd (omega (arith, len))
header_Outcome c (ok (x ∷ []), d) small (e, len, same) = absurd (omega (arith, len))
header_Outcome c (ok (x ∷ y ∷ []), d) small (e, len, same) = absurd (omega (arith, len))
header_Outcome c (ok (x ∷ y ∷ z ∷ []), d) small (e, len, same) = absurd (omega (arith, len))
header_Outcome c (ok (x ∷ y ∷ z ∷ t ∷ u ∷ xs), d) small (e, len, same) = absurd (omega (arith, len))
header_Outcome c (err e, d) small h = tt
header_Outcome c (panic, d) small h = elim h [ ]

-- From a stream of bytes, reading the reply does not index out of range, and where it succeeds it
-- has consumed an accepting reply and nothing behind it.
pub read_socks5_reply-Outcome :
    (c : Conn) → All (λ (b : ℕ). b < 256) c.input → Outcome c (read_socks5_reply c)
unfolding read_socks5_reply
read_socks5_reply-Outcome c small = header_Outcome c (read_exact 4 c) small (read_exact-Reads 4 c)
