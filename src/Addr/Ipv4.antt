-- ===== src/Addr/Ipv4.antt =====
-- The parser of `std::net`: a position is the rest of the text, and a reader that fails leaves it
-- where it was.
use ace_tun.Base.{
  ℕ, ◌+◌, ◌*◌, Bool, true, false, ◌&&◌, ◌||◌, Option, none, some, [], ◌∷◌, ltb, leb, ◌==◌,
  if◌then◌else◌, ◌>>=◌,
}
use ace_tun.Text.{Text, to_digit, byte_len}

abbrev pub Reader : Type 0 → Type 0
Reader A = Text → Option (A × Text)

unfoldable pub read_given_char : ℕ → Reader (Unit {0})
read_given_char c [] = none
read_given_char c (x ∷ t) = if x == c then some (tt, t) else none

starts_with_zero : Text → Bool
starts_with_zero [] = false
starts_with_zero (c ∷ t) = c == b'0'

-- The digits, their number and the rest; the value and the number of digits are bounded.
number_loop : ℕ → ℕ → ℕ → ℕ → ℕ → Text → Option (ℕ × ℕ × Text)
number_loop radix max_digits max acc count [] = some (acc, count, [])
number_loop radix max_digits max acc count (c ∷ t) = elim (to_digit radix c) [
  | none ↦ some (acc, count, c ∷ t)
  | some d ↦ elim (leb (acc * radix + d) max && leb (count + 1) max_digits) [
    | true ↦ number_loop radix max_digits max (acc * radix + d) (count + 1) t
    | false ↦ none
  ]
]

has_extra_zero : Bool → ℕ → Text → Bool
unfolding starts_with_zero
has_extra_zero true count t = false
has_extra_zero false count t = starts_with_zero t && ltb 1 count

-- `read_number`, by radix, most digits, greatest value, and whether a leading zero is allowed.
unfoldable pub read_number : ℕ → ℕ → ℕ → Bool → Reader ℕ
unfolding number_loop has_extra_zero to_digit
read_number radix max_digits max allow_zero_prefix t = do
  (value, count, rest) ← number_loop radix max_digits max 0 0 t
  if count == 0 || has_extra_zero allow_zero_prefix count t then none else some (value, rest)

unfoldable pub read_octet : Reader ℕ
unfolding read_number
read_octet = read_number 10 3 255 false

unfoldable pub read_ipv4 : Reader ℕ
unfolding read_octet read_given_char
read_ipv4 t = do
  (a, t) ← read_octet t
  (_, t) ← read_given_char b'.' t
  (b, t) ← read_octet t
  (_, t) ← read_given_char b'.' t
  (c, t) ← read_octet t
  (_, t) ← read_given_char b'.' t
  (d, t) ← read_octet t
  some (((a * 256 + b) * 256 + c) * 256 + d, t)

-- The whole text must be read.
unfoldable pub finish {ℓ} : {A : Type ℓ} → Option (A × Text) → Option A
finish none = none
finish (some (a, [])) = some a
finish (some (a, c ∷ t)) = none

-- `Ipv4Addr::from_str`.
unfoldable pub parse_ipv4 : Text → Option ℕ
unfolding read_ipv4 finish byte_len
parse_ipv4 t = if ltb 15 (byte_len t) then none else finish (read_ipv4 t)
