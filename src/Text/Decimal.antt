-- ===== src/Text/Decimal.antt =====
-- `Display` of the unsigned integers up to 32 bits: at most ten decimal digits.
use native.Mathlib.Nat.{pow-suc}
use ace_tun.Base.{
  ℕ, zero, suc, ◌+◌, ◌*◌, ◌/◌, ◌%◌, ◌^◌, ◌≤◌, ◌<◌, true, Option, none, some, [], ◌∷◌, ◌++◌, ◌≡◌,
  ◌≢◌, ◌==◌, refl, arith, ltb, if◌then◌else◌, ◌>>=◌, Bool-cases, inl, inr, ap,
}
use ace_tun.Text.{Text, parse_digits, parse_uint, next_digit, to_digit}

unfoldable pub digits_of : ℕ → ℕ → Text
digits_of zero n = []
digits_of (suc fuel) n =
    let front = digits_of fuel (n / 10) ++ (b'0' + n % 10) ∷ [] in
    if ltb n 10 then (b'0' + n) ∷ [] else front

unfoldable pub decimal : ℕ → Text
unfolding digits_of
decimal n = digits_of 10 n

parse_digits-append :
    (max acc : ℕ) (s t : Text)
    → parse_digits max acc (s ++ t) ≡ (parse_digits max acc s >>= λ a. parse_digits max a t)
unfolding parse_digits
parse_digits-append max acc [] t = refl
parse_digits-append max acc (c ∷ s) t =
    go (λ a. parse_digits-append max a s t) (next_digit max acc c)
  where
    go :
        ((a : ℕ)
          → parse_digits max a (s ++ t) ≡ (parse_digits max a s >>= λ b. parse_digits max b t))
        → (next : Option ℕ)
        → (next >>= λ a. parse_digits max a (s ++ t))
          ≡ (next >>= λ a. parse_digits max a s) >>= λ a. parse_digits max a t
    go ih none = refl
    go ih (some a) = ih a

next_digit_lem :
    (max acc d : ℕ)
    → d < 10
    → acc * 10 + d ≤ max
    → next_digit max acc (b'0' + d) ≡ some (acc * 10 + d)
unfolding next_digit to_digit
next_digit_lem max acc d h le = ground arith

parse-digits_of :
    (fuel max n : ℕ) → n < 10 ^ fuel → n ≤ max → parse_digits max 0 (digits_of fuel n) ≡ some n
unfolding digits_of parse_digits
parse-digits_of zero max n h le = ap some (omega arith)
parse-digits_of (suc fuel) max n h le = elim (Bool-cases (ltb n 10)) [
  | inl small ↦
      rw (small, next_digit_lem max 0 n (ground arith) (omega arith)) (ap some (omega arith))
  | inr large ↦
      let power : 10 ^ suc fuel ≡ 10 * 10 ^ fuel = omega (arith, pow-suc 10 fuel) in
      rw
        (
          large,
          parse_digits-append max 0 (digits_of fuel (n / 10)) ((b'0' + n % 10) ∷ []),
          parse-digits_of fuel max (n / 10) (omega arith) (omega arith),
          next_digit_lem max (n / 10) (n % 10) (omega arith) (omega arith),
        )
        (ap some (omega arith))
]

no_plus : (max : ℕ) (c : ℕ) → (c == b'+') ≡ true → next_digit max 0 c ≡ none
unfolding next_digit to_digit
no_plus max c h = ground arith

parse_uint_of_digits :
    (max n : ℕ) (t : Text) → t ≢ [] → parse_digits max 0 t ≡ some n → parse_uint max t ≡ some n
unfolding parse_uint parse_digits
parse_uint_of_digits max n [] ne h = absurd (ne refl)
parse_uint_of_digits max n (c ∷ t) ne h = elim (Bool-cases (c == b'+')) [
  | inl plus ↦ absurd (cc (rw (no_plus max c plus) at h))
  | inr digit ↦ rw digit h
]

snoc-ne-nil : (d : ℕ) (t : Text) → t ++ d ∷ [] ≢ []
snoc-ne-nil d [] e = cc
snoc-ne-nil d (c ∷ t) e = cc

digits_of-ne-nil : (fuel n : ℕ) → digits_of (suc fuel) n ≢ []
unfolding digits_of
digits_of-ne-nil fuel n = elim (Bool-cases (ltb n 10)) [
  | inl small ↦ rw small (λ e. cc)
  | inr large ↦ rw large (snoc-ne-nil _ (digits_of fuel (n / 10)))
]

-- Reading back what `Display` writes.
pub parse_uint-decimal : (max n : ℕ) → n < 2 ^ 32 → n ≤ max → parse_uint max (decimal n) ≡ some n
unfolding decimal
parse_uint-decimal max n h le =
    parse_uint_of_digits max n (digits_of 10 n) (digits_of-ne-nil 9 n)
      (parse-digits_of 10 max n (omega arith) le)
