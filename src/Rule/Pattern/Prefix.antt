-- ===== src/Rule/Pattern/Prefix.antt =====
-- CIDR patterns (src/rule.rs, `match_ipv6_pattern`): the mask compares network prefixes.
use native.Mathlib.Nat.{add-mul-mod_self_right, mod-eq_of_lt, eq_of_mul-eq-mul_right}
use mathlib.Core.Path.{subst₂}
use ace_tun.Base.{
  ℕ, ◌+◌, ◌-◌, ◌*◌, ◌/◌, ◌%◌, ◌^◌, ◌≤◌, ◌<◌, bit_and, true, some, ◌≡◌, ◌↔◌, refl, subst, sym, ap,
  ◌∙◌, arith, ltb, ◌==◌, ==_iff, Bool-cases, inl, inr,
}
use ace_tun.Base.Bits.{pow2, pow2-pos, pow2-add, pow-eq-pow2, bit_and_prefix}
use ace_tun.Rule.Pattern.{prefix_mask, match_prefix}

-- (p k - 1) k is (p - 1) k modulo p k, with p = a + 1 and k = b + 1.
mask_split : (a b : ℕ) → ((a + 1) * (b + 1) - 1) * (b + 1) ≡ a * (b + 1) + b * ((a + 1) * (b + 1))
mask_split a b =
    let less : (a + 1) * (b + 1) - 1 ≡ a * b + a + b = omega arith in rw less (omega arith)

mask_remainder : (a b : ℕ) → ((a + 1) * (b + 1) - 1) * (b + 1) % ((a + 1) * (b + 1)) ≡ a * (b + 1)
mask_remainder a b = rw (mask_split a b) (
    add-mul-mod_self_right (a * (b + 1)) b ((a + 1) * (b + 1))
    ∙ mod-eq_of_lt {n = a * (b + 1)} {m = (a + 1) * (b + 1)} (omega arith))

mask_product : (p k : ℕ) → 0 < p → 0 < k → (p * k - 1) * k % (p * k) ≡ (p - 1) * k
mask_product p k hp hk =
    let above : p ≡ p - 1 + 1 = omega arith in
    let below : k ≡ k - 1 + 1 = omega arith in
    subst₂ (λ (s t : ℕ). (s * t - 1) * t % (s * t) ≡ (p - 1) * t) (sym above) (sym below)
      (mask_remainder (p - 1) (k - 1))

word : (len rest : ℕ) → len + rest ≡ 128 → pow2 len * pow2 rest ≡ 2 ^ 128
word len rest h = sym (pow2-add len rest) ∙ ap pow2 h ∙ sym (pow-eq-pow2 128)

prefix_mask_lem : (len rest : ℕ) → len + rest ≡ 128 → prefix_mask len ≡ (pow2 len - 1) * pow2 rest
unfolding prefix_mask
prefix_mask_lem len rest h =
    let shift : 128 - len ≡ rest = omega arith in
    rw (shift, pow-eq-pow2 rest)
      (subst (λ (w : ℕ). (w - 1) * pow2 rest % w ≡ (pow2 len - 1) * pow2 rest) (word len rest h)
        (mask_product (pow2 len) (pow2 rest) (pow2-pos len) (pow2-pos rest)))

masked :
    (len rest x : ℕ)
    → len + rest ≡ 128
    → x < 2 ^ 128
    → bit_and x (prefix_mask len) ≡ x / pow2 rest * pow2 rest
masked len rest x h lt =
    rw (prefix_mask_lem len rest h) (bit_and_prefix len rest x (omega (arith, word len rest h)))

compare_masked :
    (len rest a b : ℕ)
    → len + rest ≡ 128
    → a < 2 ^ 128
    → b < 2 ^ 128
    → (bit_and a (prefix_mask len) ≡ bit_and b (prefix_mask len)) ↔ (a / 2 ^ rest ≡ b / 2 ^ rest)
compare_masked len rest a b h ha hb = rw (pow-eq-pow2 rest) (
  λ e.
      eq_of_mul-eq-mul_right (pow2 rest) (pow2-pos rest) (a / pow2 rest) (b / pow2 rest)
        (sym (masked len rest a h ha) ∙ e ∙ masked len rest b h hb),
  λ e. masked len rest a h ha ∙ ap (λ (q : ℕ). q * pow2 rest) e ∙ sym (masked len rest b h hb),
)

no_bits :
    (len a b : ℕ) → len ≡ 0 → a < 2 ^ 128 → b < 2 ^ 128 → a / 2 ^ (128 - len) ≡ b / 2 ^ (128 - len)
no_bits len a b h ha hb = let all : 128 - len ≡ 128 = omega arith in rw all (omega arith)

-- For parsed addresses of 128 bits, an address matches `network/prefix_len` exactly when the prefix
-- length is at most 128 and both have the same first `prefix_len` bits.
pub match_prefix_iff :
    (network prefix_len ip : ℕ)
    → network < 2 ^ 128
    → ip < 2 ^ 128
    → (match_prefix (some network) (some prefix_len) ip ≡ true)
      ↔ ((prefix_len ≤ 128) × (network / 2 ^ (128 - prefix_len) ≡ ip / 2 ^ (128 - prefix_len)))
unfolding match_prefix
match_prefix_iff network prefix_len ip hn hi = elim (Bool-cases (ltb 128 prefix_len)) [
  | inl long ↦ rw long (λ e. cc, λ (le, _). absurd (ground arith))
  | inr fits ↦
      let le : prefix_len ≤ 128 = ground arith in
      let rest : ℕ = 128 - prefix_len in
      let same = compare_masked prefix_len rest network ip (omega arith) hn hi in
      elim (Bool-cases (prefix_len == 0)) [
        | inl all ↦
            rw (fits, all)
              (λ _. (le, no_bits prefix_len network ip (ground arith) hn hi), λ _. refl)
        | inr some_bits ↦
            rw (fits, some_bits)
              (λ e. (le, same.0 ((==_iff _ _).0 e)), λ (_, e). (==_iff _ _).1 (same.1 e))
      ]
]
