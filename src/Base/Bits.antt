-- ===== src/Base/Bits.antt =====
-- A bitwise `and` with a mask of ones: the low bits, and the high bits that a prefix mask keeps.
use Prim.Native.Nat.{ℕ, zero, suc, ◌+◌, ◌-◌, ◌*◌, ◌/◌, ◌%◌, ◌^◌, ◌≤◌, ◌<◌, min}
use Prim.Native.Nat.{bit_and, digits, bit_and-bitwise}
use mathlib.Core.Path.{◌≡◌, refl, sym, ap, ◌∙◌}
use native.Mathlib.Nat.{pow-suc, zero-add, suc-add, mul_assoc, div-div-eq-div-mul, mul_comm}
use native.Mathlib.Omega.{arith}

-- The digits that `bit_and` stands for, with fuel for the first number.
abbrev shared_digits : ℕ → ℕ → ℕ → ℕ
shared_digits x y fuel = digits (λ rest. zero) min fuel x y

spare_fuel :
    (x y few more : ℕ) → x ≤ few → x ≤ more → shared_digits x y few ≡ shared_digits x y more
spare_fuel zero y zero zero h k = refl
spare_fuel zero y zero (suc more) h k = refl
spare_fuel zero y (suc few) zero h k = refl
spare_fuel zero y (suc few) (suc more) h k = refl
spare_fuel (suc x) y zero more h k = absurd (omega arith)
spare_fuel (suc x) y (suc few) zero h k = absurd (omega arith)
spare_fuel (suc x) y (suc few) (suc more) h k =
    let halves = spare_fuel (suc x / 2) (y / 2) few more (omega arith) (omega arith) in omega arith

nothing-bit_and : (y : ℕ) → bit_and zero y ≡ zero
nothing-bit_and y = bit_and-bitwise zero y

pub bit_and_step : (x y : ℕ) → bit_and x y ≡ bit_and (x / 2) (y / 2) * 2 + min (x % 2) (y % 2)
bit_and_step zero y =
    let both = nothing-bit_and y in let half = nothing-bit_and (y / 2) in omega arith
bit_and_step (suc x) y =
    let fuel = spare_fuel (suc x / 2) (y / 2) x (suc x / 2) (omega arith) (omega arith) in
    let both = bit_and-bitwise (suc x) y in
    let half = bit_and-bitwise (suc x / 2) (y / 2) in omega arith

-- 2 ^ n, by recursion.
unfoldable pub pow2 : ℕ → ℕ
pow2 zero = 1
pow2 (suc n) = pow2 n * 2

pub pow2-pos : (n : ℕ) → 0 < pow2 n
unfolding pow2
pow2-pos zero = omega arith
pow2-pos (suc n) = omega (arith, pow2-pos n)

pub pow-eq-pow2 : (n : ℕ) → 2 ^ n ≡ pow2 n
unfolding pow2
pow-eq-pow2 zero = refl
pow-eq-pow2 (suc n) = omega (arith, pow-eq-pow2 n, pow-suc 2 n)

pub pow2-add : (m n : ℕ) → pow2 (m + n) ≡ pow2 m * pow2 n
unfolding pow2
pow2-add zero n = omega (arith, ap pow2 (zero-add n))
pow2-add (suc m) n = rw (suc-add m n, pow2-add m n) (grind arith)

pub bit_and_ones : (m x : ℕ) → x < pow2 m → bit_and x (pow2 m - 1) ≡ x
unfolding pow2
bit_and_ones zero zero h = nothing-bit_and 0
bit_and_ones zero (suc x) h = absurd (omega arith)
bit_and_ones (suc m) x h =
    let half : (pow2 m * 2 - 1) / 2 ≡ pow2 m - 1 = omega (arith, pow2-pos m) in
    let odd : (pow2 m * 2 - 1) % 2 ≡ 1 = omega (arith, pow2-pos m) in
    let ih : bit_and (x / 2) (pow2 m - 1) ≡ x / 2 = bit_and_ones m (x / 2) (omega arith) in
    bit_and_step x (pow2 m * 2 - 1) ∙ rw (half, odd, ih) (omega arith)

prefix_digit :
    (mask k x : ℕ)
    → bit_and (x / 2) mask ≡ x / 2 / k * k
    → bit_and (x / 2) (mask * 2 / 2) * 2 + min (x % 2) (mask * 2 % 2) ≡ x / (k * 2) * (k * 2)
prefix_digit mask k x ih =
    let half : mask * 2 / 2 ≡ mask = omega arith in
    let even : mask * 2 % 2 ≡ 0 = omega arith in
    let quotient : x / 2 / k ≡ x / (k * 2) = div-div-eq-div-mul x 2 k ∙ ap (◌/◌ x) (mul_comm 2 k) in
    rw (half, even, ih, quotient) (omega (arith, mul_assoc (x / (k * 2)) k 2))

-- The mask of m ones above k zeros keeps the quotient by 2 ^ k.
pub bit_and_prefix :
    (m k x : ℕ) → x < pow2 m * pow2 k → bit_and x ((pow2 m - 1) * pow2 k) ≡ x / pow2 k * pow2 k
unfolding pow2
bit_and_prefix m zero x h =
    let one : (pow2 m - 1) * 1 ≡ pow2 m - 1 = omega arith in
    rw one (bit_and_ones m x (omega arith) ∙ omega arith)
bit_and_prefix m (suc k) x h =
    let regroup : (pow2 m - 1) * (pow2 k * 2) ≡ (pow2 m - 1) * pow2 k * 2 =
      sym (mul_assoc (pow2 m - 1) (pow2 k) 2) in
    let bound : pow2 m * (pow2 k * 2) ≡ pow2 m * pow2 k * 2 = sym (mul_assoc (pow2 m) (pow2 k) 2) in
    let ih : bit_and (x / 2) ((pow2 m - 1) * pow2 k) ≡ x / 2 / pow2 k * pow2 k =
      bit_and_prefix m k (x / 2) (omega arith) in
    rw regroup (
      bit_and_step x ((pow2 m - 1) * pow2 k * 2)
      ∙ prefix_digit ((pow2 m - 1) * pow2 k) (pow2 k) x ih)
