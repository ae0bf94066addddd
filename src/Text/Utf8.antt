-- ===== src/Text/Utf8.antt =====
-- UTF-8: `str::as_bytes` and `std::str::from_utf8`.
use mathlib.Core.Option
use ace_tun.Base.{
  ℕ, ◌+◌, ◌-◌, ◌*◌, ◌/◌, ◌%◌, ◌&&◌, Option, none, some, List, [], ◌∷◌, ◌++◌, ltb, leb, ◌==◌,
  if◌then◌else◌, ◌>>=◌,
}

unfoldable pub encode_char : ℕ → List ℕ
encode_char c =
    if ltb c 0x80
    then c ∷ []
    else if ltb c 0x800
    then (0xc0 + c / 64) ∷ (0x80 + c % 64) ∷ []
    else if ltb c 0x10000
    then (0xe0 + c / 4096) ∷ (0x80 + c / 64 % 64) ∷ (0x80 + c % 64) ∷ []
    else (0xf0 + c / 262144) ∷ (0x80 + c / 4096 % 64) ∷ (0x80 + c / 64 % 64) ∷ (0x80 + c % 64) ∷ []

unfoldable pub as_bytes : List ℕ → List ℕ
unfolding encode_char
as_bytes [] = []
as_bytes (c ∷ t) = encode_char c ++ as_bytes t

-- A decoder between two bytes: continuation bytes to come, the bits read, and the range of the
-- next byte.
pub record Decoder : Type 0 where
  pub need : ℕ
  pub bits : ℕ
  pub lo : ℕ
  pub hi : ℕ

abbrev pub idle : Decoder
idle = record { need = 0; bits = 0; lo = 0x80; hi = 0xbf }

unfoldable pub lead_byte : ℕ → Option (Option ℕ × Decoder)
lead_byte b =
    if ltb b 0x80
    then some (some b, idle)
    else if ltb b 0xc2
    then none
    else if ltb b 0xe0
    then some (none, record { need = 1; bits = b - 0xc0; lo = 0x80; hi = 0xbf })
    else if ltb b 0xf0
    then some (
      none,
      record {
        need = 2;
        bits = b - 0xe0;
        lo = if b == 0xe0 then 0xa0 else 0x80;
        hi = if b == 0xed then 0x9f else 0xbf;
      },
    )
    else if ltb b 0xf5
    then some (
      none,
      record {
        need = 3;
        bits = b - 0xf0;
        lo = if b == 0xf0 then 0x90 else 0x80;
        hi = if b == 0xf4 then 0x8f else 0xbf;
      },
    )
    else none

unfoldable pub next_byte : Decoder → ℕ → Option (Option ℕ × Decoder)
unfolding lead_byte
next_byte d b =
    if d.need == 0
    then lead_byte b
    else if leb d.lo b && leb b d.hi
    then (let bits = d.bits * 64 + (b - 0x80) in
        if d.need == 1
        then some (some bits, idle)
        else some (none, record { need = d.need - 1; bits = bits; lo = 0x80; hi = 0xbf }))
    else none

unfoldable pub emit : Option ℕ → List ℕ → List ℕ
emit none t = t
emit (some c) t = c ∷ t

unfoldable pub decode_from : Decoder → List ℕ → Option (List ℕ)
unfolding next_byte emit
decode_from d [] = if d.need == 0 then some [] else none
decode_from d (b ∷ bs) = next_byte d b >>= λ r. Option.map (emit r.0) (decode_from r.1 bs)

unfoldable pub from_utf8 : List ℕ → Option (List ℕ)
unfolding decode_from
from_utf8 bs = decode_from idle bs
