-- ===== src/Proxy/Stream/Laws.antt =====
-- Reading from a stream (`read_exact`) takes exactly the bytes asked for from the front.
use ace_tun.Base.{
  ℕ, zero, suc, ◌≤◌, false, List, [], ◌∷◌, ◌++◌, ◌≡◌, refl, sym, ap, arith, length, take, drop, ltb,
  length-append, length-take, take-append, drop-append, Bool-cases, inl, inr,
}
use ace_tun.Proxy.Stream.{IoResult, ok, err, panic, Conn, read_exact}

take_append_drop {ℓ} : {A : Type ℓ} (n : ℕ) (xs : List A) → take n xs ++ drop n xs ≡ xs
take_append_drop zero xs = refl
take_append_drop (suc n) [] = refl
take_append_drop (suc n) (x ∷ xs) = ap (◌∷◌ x) (take_append_drop n xs)

pub read_exact-append :
    (c : Conn) (xs ys : List ℕ)
    → c.input ≡ xs ++ ys
    → read_exact (length xs) c ≡ (ok xs, record c { input = ys })
unfolding read_exact
read_exact-append c xs ys e =
    let long : ltb (length (xs ++ ys)) (length xs) ≡ false = ground (arith, length-append xs ys) in
    rw (e, long, take-append xs ys, drop-append xs ys)

-- A read gives the next bytes, exactly as many as asked for, or fails.
abbrev pub Reads : ℕ → Conn → IoResult (List ℕ) × Conn → Type 0
Reads n c (ok xs, d) =
    (c.input ≡ xs ++ d.input) × (length xs ≡ n) × (d ≡ record c { input = d.input })
Reads n c (err e, d) = Unit {0}
Reads n c (panic, d) = ⊥

pub read_exact-Reads : (n : ℕ) (c : Conn) → Reads n c (read_exact n c)
unfolding read_exact
read_exact-Reads n c = elim (Bool-cases (ltb (length c.input) n)) [
  | inl short ↦ rw short tt
  | inr long ↦
      let enough : n ≤ length c.input = ground arith in
      rw long (sym (take_append_drop n c.input), omega (arith, length-take n c.input), refl)
]
