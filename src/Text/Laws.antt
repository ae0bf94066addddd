-- ===== src/Text/Laws.antt =====
-- Laws of texts that the components' proofs use.
use mathlib.Core.Option
use ace_tun.Base.{
  ℕ, ◌+◌, ◌-◌, ◌≤◌, ◌<◌, ◌≡◌, refl, ◌↔◌, true, some, [], ◌∷◌, ◌++◌, arith, ltb, ◌==◌, length,
  length-append, All, ap, Bool-cases, inl, inr,
}
use ace_tun.Text.{Text, text_eq, utf8_len, byte_len, split_at_byte, cons_first}
use ace_tun.Text.Utf8.{as_bytes, encode_char, from_utf8, decode_from, next_byte, idle}

pub text_eq_iff : (s t : Text) → (text_eq s t ≡ true) ↔ (s ≡ t)
unfolding text_eq
text_eq_iff [] [] = ground arith
text_eq_iff [] (b ∷ t) = ground arith
text_eq_iff (a ∷ s) [] = ground arith
text_eq_iff (a ∷ s) (b ∷ t) = ground (arith, text_eq_iff s t)

pub text_eq_refl : (s : Text) → text_eq s s ≡ true
text_eq_refl s = (text_eq_iff s s).1 refl

pub utf8_len_bounds : (c : ℕ) → (1 ≤ utf8_len c) × (utf8_len c ≤ 4)
unfolding utf8_len
utf8_len_bounds c = ground arith

pub byte_len-append : (s t : Text) → byte_len (s ++ t) ≡ byte_len s + byte_len t
unfolding byte_len
byte_len-append [] t = omega arith
byte_len-append (c ∷ s) t = omega (arith, byte_len-append s t)

length-encode_char : (c : ℕ) → length (encode_char c) ≡ utf8_len c
unfolding encode_char utf8_len
length-encode_char c = ground arith

pub length-as_bytes : (t : Text) → length (as_bytes t) ≡ byte_len t
unfolding byte_len as_bytes
length-as_bytes [] = refl
length-as_bytes (c ∷ t) =
    omega
      (arith, length-append (encode_char c) (as_bytes t), length-encode_char c, length-as_bytes t)

-- A slice at the byte length of a prefix gives back the two parts.
pub split_at_byte-append : (s t : Text) → split_at_byte (s ++ t) (byte_len s) ≡ some (s, t)
unfolding split_at_byte byte_len
split_at_byte-append [] [] = refl
split_at_byte-append [] (c ∷ t) = refl
split_at_byte-append (c ∷ s) t =
    let rest : utf8_len c + byte_len s - utf8_len c ≡ byte_len s = omega arith in
    rw rest (ground (arith, split_at_byte-append s t, utf8_len_bounds c))

-- A slice that does not panic splits the text at that byte.
pub split_at_byte_sound :
    (t : Text) (n : ℕ) (a b : Text)
    → split_at_byte t n ≡ some (a, b)
    → (t ≡ a ++ b) × (byte_len a ≡ n)
unfolding split_at_byte byte_len
split_at_byte_sound [] n a b h = ground arith
split_at_byte_sound (c ∷ t) n a b h = elim (Bool-cases (n == 0)) [
  | inl e ↦ ground arith
  | inr e ↦ elim (Bool-cases (ltb n (utf8_len c))) [
    | inl f ↦ ground arith
    | inr f ↦
        let ((s, r), found, same) =
          (Option.map-eq-some_iff (cons_first c) (split_at_byte t (n - utf8_len c))).0
            (rw (e, f) at h) in
        let (parts, len) = split_at_byte_sound t (n - utf8_len c) s r found in
        ground (arith, ap (λ (q : Text × Text). q.0) same, ap (λ (q : Text × Text). q.1) same)
  ]
]

utf8_len-IsAscii : (c : ℕ) → c < 0x80 → utf8_len c ≡ 1
unfolding utf8_len
utf8_len-IsAscii c h = ground arith

abbrev pub IsAscii : Text → Type 0
IsAscii t = All (λ c. c < 0x80) t

pub split_at_byte-IsAscii :
    (t : Text) (n : ℕ) → IsAscii t → n ≤ length t → (p : Text × Text) × (split_at_byte t n ≡ some p)
unfolding split_at_byte
split_at_byte-IsAscii [] n h le = (([], []), ground arith)
split_at_byte-IsAscii (c ∷ t) n (hc, h) le = elim (Bool-cases (n == 0)) [
  | inl e ↦ (([], c ∷ t), ground arith)
  | inr e ↦
      let ((a, b), eq) = split_at_byte-IsAscii t (n - 1) h (ground arith) in
      ((c ∷ a, b), ground (arith, utf8_len-IsAscii c hc))
]

pub byte_len-IsAscii : (t : Text) → IsAscii t → byte_len t ≡ length t
unfolding byte_len
byte_len-IsAscii [] h = refl
byte_len-IsAscii (c ∷ t) (hc, h) = omega (arith, utf8_len-IsAscii c hc, byte_len-IsAscii t h)

lead-IsAscii : (c : ℕ) → c < 0x80 → next_byte idle c ≡ some (some c, idle)
unfolding next_byte
lead-IsAscii c h = ground arith

-- Decoding undoes encoding on ASCII.
pub from_utf8-IsAscii : (t : Text) → IsAscii t → from_utf8 t ≡ some t
unfolding from_utf8 decode_from
from_utf8-IsAscii [] h = refl
from_utf8-IsAscii (c ∷ t) (hc, h) =
    let step : next_byte idle c ≡ some (some c, idle) = lead-IsAscii c hc in
    rw (step, from_utf8-IsAscii t h)

pub as_bytes-IsAscii : (t : Text) → IsAscii t → as_bytes t ≡ t
unfolding as_bytes encode_char
as_bytes-IsAscii [] h = refl
as_bytes-IsAscii (c ∷ t) (hc, h) = ground (arith, as_bytes-IsAscii t h)
