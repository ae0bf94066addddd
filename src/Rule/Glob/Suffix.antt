-- ===== src/Rule/Glob/Suffix.antt =====
-- `strip_exe_suffix` (src/rule.rs): what it removes, and where its slice panics.
use ace_tun.Base.{
  ℕ, ◌+◌, ◌-◌, ◌≤◌, true, false, none, some, [], ◌∷◌, ◌++◌, ◌≡◌, ◌↔◌, refl, ◌∙◌, arith, ltb,
  if◌then◌else◌, ◌==◌, Bool-cases, Option-cases, inl, inr, ap,
}
use ace_tun.Text.{Text, byte_len, split_at_byte, eq_ignore_ascii_case, ascii_lower, utf8_len}
use ace_tun.Text.Laws.{
  byte_len-append, split_at_byte-append, split_at_byte_sound, IsAscii, byte_len-IsAscii,
  split_at_byte-IsAscii,
}
use ace_tun.Rule.Glob.{exe_suffix, strip_exe_suffix}

exe_len : byte_len exe_suffix ≡ 4
unfolding byte_len
exe_len = refl

lower_width : (c d : ℕ) → (ascii_lower c == d) ≡ true → d ≤ 0x7f → utf8_len c ≡ 1
unfolding ascii_lower utf8_len
lower_width c d h k = ground arith

-- A suffix that differs from `.exe` by case only has four bytes.
exe_like_len : (t : Text) → eq_ignore_ascii_case t exe_suffix ≡ true → byte_len t ≡ 4
unfolding eq_ignore_ascii_case byte_len
exe_like_len (a ∷ b ∷ c ∷ d ∷ []) h =
    ground (arith, lower_width a b'.', lower_width b b'e', lower_width c b'x', lower_width d b'e')
exe_like_len [] h = cc
exe_like_len (a ∷ []) h = ground arith
exe_like_len (a ∷ b ∷ []) h = ground arith
exe_like_len (a ∷ b ∷ c ∷ []) h = ground arith
exe_like_len (a ∷ b ∷ c ∷ d ∷ e ∷ t) h = ground arith

-- A name that ends in `.exe`, in any case, loses exactly that suffix.
strip_exe_suffix-append :
    (stem suffix : Text)
    → eq_ignore_ascii_case suffix exe_suffix ≡ true
    → strip_exe_suffix (stem ++ suffix) ≡ some stem
unfolding strip_exe_suffix
strip_exe_suffix-append stem suffix h =
    let four : byte_len suffix ≡ 4 = exe_like_len suffix h in
    let total : byte_len (stem ++ suffix) ≡ byte_len stem + 4 =
      omega (arith, byte_len-append stem suffix) in
    let at : byte_len stem + 4 - 4 ≡ byte_len stem = omega arith in
    let long : ltb (byte_len stem + 4) 4 ≡ false = ground arith in
    rw (total, long, at, split_at_byte-append stem suffix, h)

abbrev pub HasTail : Text → Type 0
HasTail t = (a : Text) × (b : Text) × (t ≡ a ++ b) × (byte_len b ≡ 4)

slice_fails : (t : Text) → split_at_byte t (byte_len t - 4) ≡ none → ¬ HasTail t
slice_fails t e (a, b, same, four) =
    let at : byte_len t - 4 ≡ byte_len a =
      omega (arith, byte_len-append a b, ap byte_len same, four) in
    let cut : split_at_byte t (byte_len t - 4) ≡ some (a, b) =
      ap (split_at_byte t) at
      ∙ ap (λ (s : Text). split_at_byte s (byte_len a)) same
      ∙ split_at_byte-append a b in
    cc

long_slice :
    (t : Text)
    → ltb (byte_len t) 4 ≡ false
    → strip_exe_suffix t ≡ none
    → split_at_byte t (byte_len t - 4) ≡ none
unfolding strip_exe_suffix
long_slice t long e = elim (Option-cases (split_at_byte t (byte_len t - 4))) [
  | inl failed ↦ failed
  | inr ((a, b), cut) ↦
      let result : strip_exe_suffix t ≡ some (if eq_ignore_ascii_case b exe_suffix then a else t) =
        rw (long, cut) in
      cc
]

slice_holds : (t : Text) → 4 ≤ byte_len t → ¬ HasTail t → split_at_byte t (byte_len t - 4) ≡ none
slice_holds t le h = elim (Option-cases (split_at_byte t (byte_len t - 4))) [
  | inl e ↦ e
  | inr ((a, b), e) ↦
      let (same, len) = split_at_byte_sound t (byte_len t - 4) a b e in
      absurd (h (a, b, same, omega (arith, byte_len-append a b, ap byte_len same)))
]

short_name : (t : Text) → ltb (byte_len t) 4 ≡ true → strip_exe_suffix t ≡ some t
unfolding strip_exe_suffix
short_name t short = rw short

-- `strip_exe_suffix` panics on exactly the names of four bytes or more whose last four bytes are
-- not a whole number of characters.
pub strip_exe_suffix-eq-none_iff :
    (t : Text) → (strip_exe_suffix t ≡ none) ↔ ((4 ≤ byte_len t) × ¬ HasTail t)
unfolding strip_exe_suffix
strip_exe_suffix-eq-none_iff t = elim (Bool-cases (ltb (byte_len t) 4)) [
  | inl short ↦ (λ e. cc (short_name t short), λ (le, _). absurd (ground arith))
  | inr long ↦ (
    λ e. (ground arith, slice_fails t (long_slice t long e)),
    λ (le, h). rw (long, slice_holds t le h),
  )
]

-- No ASCII name makes `strip_exe_suffix` panic.
strip_exe_suffix-IsAscii : (t : Text) → IsAscii t → (s : Text) × (strip_exe_suffix t ≡ some s)
unfolding strip_exe_suffix
strip_exe_suffix-IsAscii t h = elim (Bool-cases (ltb (byte_len t) 4)) [
  | inl short ↦ (t, rw short)
  | inr long ↦
      let ((a, b), e) =
        split_at_byte-IsAscii t (byte_len t - 4) h (omega (arith, byte_len-IsAscii t h)) in
      ((if eq_ignore_ascii_case b exe_suffix then a else t), rw (long, e))
]
