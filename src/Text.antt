-- ===== src/Text.antt =====
-- What the program uses of Rust's `str` and `char`. A text is the list of its code points; byte
-- offsets and lengths are those of its UTF-8 encoding. `none` from a slice is a panic.
pub mod Utf8
pub mod Decimal
pub mod Laws
use Prim.Native.Char.{code}
use Prim.Native.String
use Prim.Native.String.{String}
use mathlib.Core.Option
use ace_tun.Base.{
  ℕ, ◌+◌, ◌-◌, ◌*◌, Bool, true, false, not, ◌&&◌, ◌||◌, Option, none, some, List, [], ◌∷◌, map,
  reverse, ltb, leb, ◌==◌, if◌then◌else◌, ◌>>=◌, any, is_nil,
}

abbrev pub Text : Type 0
Text = List ℕ

-- The code points of a literal.
abbrev pub codes : String → Text
codes String.[] = []
codes (String.◌∷◌ c s) = code c ∷ codes s

-- `==` on `str`.
unfoldable pub text_eq : Text → Text → Bool
text_eq [] [] = true
text_eq [] (_ ∷ _) = false
text_eq (_ ∷ _) [] = false
text_eq (a ∷ s) (b ∷ t) = a == b && text_eq s t

-- `u8::to_ascii_lowercase`, on a code point.
unfoldable pub ascii_lower : ℕ → ℕ
ascii_lower c = if leb b'A' c && leb c b'Z' then c + 32 else c

unfoldable pub to_ascii_lowercase : Text → Text
unfolding ascii_lower
to_ascii_lowercase t = map ascii_lower t

unfoldable pub eq_ignore_ascii_case : Text → Text → Bool
unfolding to_ascii_lowercase text_eq
eq_ignore_ascii_case s t = text_eq (to_ascii_lowercase s) (to_ascii_lowercase t)

-- `char::len_utf8` and `str::len`.
unfoldable pub utf8_len : ℕ → ℕ
utf8_len c = if ltb c 0x80 then 1 else if ltb c 0x800 then 2 else if ltb c 0x10000 then 3 else 4

unfoldable pub byte_len : Text → ℕ
unfolding utf8_len
byte_len [] = 0
byte_len (c ∷ t) = utf8_len c + byte_len t

cons_first : ℕ → Text × Text → Text × Text
cons_first c (s, t) = (c ∷ s, t)

-- The two slices `&t[..n]` and `&t[n..]`: a panic where `n` is no character boundary.
unfoldable pub split_at_byte : Text → ℕ → Option (Text × Text)
unfolding utf8_len cons_first
split_at_byte [] n = if n == 0 then some ([], []) else none
split_at_byte (c ∷ t) n =
    if n == 0
    then some ([], c ∷ t)
    else if ltb n (utf8_len c)
    then none
    else Option.map (cons_first c) (split_at_byte t (n - utf8_len c))

-- `char::is_whitespace`: the code points with the property White_Space.
unfoldable pub is_whitespace : ℕ → Bool
is_whitespace c =
    (leb 9 c && leb c 13)
    || c == 32
    || c == 0x85
    || c == 0xa0
    || c == 0x1680
    || (leb 0x2000 c && leb c 0x200a)
    || c == 0x2028
    || c == 0x2029
    || c == 0x202f
    || c == 0x205f
    || c == 0x3000

unfoldable pub trim_start : Text → Text
unfolding is_whitespace
trim_start [] = []
trim_start (c ∷ t) = elim (is_whitespace c) [ true ↦ trim_start t | false ↦ c ∷ t ]

unfoldable pub trim : Text → Text
unfolding trim_start
trim t = reverse (trim_start (reverse (trim_start t)))

grow : ℕ → List Text → List Text
grow c [] = (c ∷ []) ∷ []
grow c (g ∷ gs) = (c ∷ g) ∷ gs

-- `str::split` at the characters that pass the test.
unfoldable pub split_on : (ℕ → Bool) → Text → List Text
unfolding grow
split_on p [] = [] ∷ []
split_on p (c ∷ t) = let rest = split_on p t in if p c then [] ∷ rest else grow c rest

-- `str::split_once` at a character.
unfoldable pub split_once : ℕ → Text → Option (Text × Text)
unfolding cons_first
split_once c [] = none
split_once c (x ∷ t) = if x == c then some ([], t) else Option.map (cons_first x) (split_once c t)

unfoldable pub contains : ℕ → Text → Bool
contains c t = any (λ x. x == c) t

unfoldable pub filter_text : (Text → Bool) → List Text → List Text
filter_text p [] = []
filter_text p (t ∷ ts) = let rest = filter_text p ts in if p t then t ∷ rest else rest

-- `char::to_digit`.
unfoldable pub to_digit : ℕ → ℕ → Option ℕ
to_digit radix c =
    let d =
      (if leb b'0' c && leb c b'9'
        then c - b'0'
        else if leb b'a' c && leb c b'f'
        then c - b'a' + 10
        else if leb b'A' c && leb c b'F'
        then c - b'A' + 10
        else radix) in
    if ltb d radix then some d else none

-- One round of the digit loop of `from_str`, with its overflow checks against the type's maximum.
unfoldable pub next_digit : ℕ → ℕ → ℕ → Option ℕ
unfolding to_digit
next_digit max acc c =
    to_digit 10 c >>= λ d. if leb (acc * 10 + d) max then some (acc * 10 + d) else none

unfoldable pub parse_digits : ℕ → ℕ → Text → Option ℕ
unfolding next_digit
parse_digits max acc [] = some acc
parse_digits max acc (c ∷ t) = next_digit max acc c >>= λ a. parse_digits max a t

-- `u8::from_str`, `u16::from_str` and `u32::from_str`, by the type's maximum: one leading `+` is
-- taken, and an empty text, any other character or a value above the maximum is an error.
unfoldable pub parse_uint : ℕ → Text → Option ℕ
unfolding parse_digits
parse_uint max [] = none
parse_uint max (c ∷ t) =
    if c == b'+'
    then (if is_nil t then none else parse_digits max 0 t)
    else parse_digits max 0 (c ∷ t)
