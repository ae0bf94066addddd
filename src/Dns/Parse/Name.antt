-- ===== src/Dns/Parse/Name.antt =====
-- `parse_name` (src/dns.rs): the loop ends, no index is out of range, and the offset advances.
use ace_tun.Base.{
  ℕ, zero, suc, ◌+◌, ◌-◌, ◌*◌, ◌≤◌, ◌<◌, true, false, Option, none, some, List, ◌≡◌, ◌⊎◌, inl, inr,
  refl, arith, length, get_elem?, take, drop, lt_of_get_elem?, Option-cases, Bool-cases, bit_and,
  ltb, ◌==◌,
}
use ace_tun.Text.{Text}
use ace_tun.Text.Utf8.{from_utf8}
use ace_tun.Dns.Parse.{
  NameState, Round, again, fail, name, slice, finish_name, follow, add_label, read_label, read_byte,
  round, name_loop, name_fuel, parse_name,
}

jump_falls :
    (jumps len pos target : ℕ)
    → jumps < 10
    → (10 - (jumps + 1)) * (len + 1) + (len - target) < (10 - jumps) * (len + 1) + (len - pos)
jump_falls jumps len pos target h =
    let one_more : 10 - jumps ≡ 10 - (jumps + 1) + 1 = omega arith in rw one_more (omega arith)

module _ (msg : List ℕ) (start : ℕ) where
  -- A loop state that was reached from the offset `start`.
  record Inv (s : NameState) : Type 0 where
    few_jumps : s.jumps ≤ 10
    ahead :
        ((s.jumped ≡ false) × (start ≤ s.pos))
        ⊎ ((s.jumped ≡ true) × (start < s.jumped_end) × (s.jumped_end ≤ length msg))

  abbrev measure : NameState → ℕ
  measure s = (10 - s.jumps) * (length msg + 1) + (length msg - s.pos)

  -- What a round from a state may do.
  abbrev Allowed : NameState → Round → Type 0
  Allowed s fail = Unit {0}
  Allowed s (name out end) = (start < end) × (end ≤ length msg)
  Allowed s (again t) = Inv t × (measure t < measure s)

  finish_name-Allowed : (s : NameState) → Inv s → s.pos < length msg → Allowed s (finish_name s)
  unfolding finish_name
  finish_name-Allowed s v h = ground arith

  follow-Allowed :
      (s : NameState) (b b2 : ℕ) → Inv s → s.pos + 1 < length msg → Allowed s (follow s b (some b2))
  unfolding follow
  follow-Allowed s b b2 v h = elim (Bool-cases (ltb 10 (s.jumps + 1))) [
    | inl many ↦ rw many tt
    | inr few ↦ rw few (
      record { few_jumps = ground arith; ahead = ground arith },
      jump_falls s.jumps (length msg) s.pos (bit_and b 0x3f * 256 + b2) (ground arith),
    )
  ]

  add_label-Allowed :
      (s : NameState) (b : ℕ) (label : Option Text)
      → Inv s
      → 0 < b
      → s.pos + 1 + b ≤ length msg
      → Allowed s (add_label s (s.pos + 1 + b) label)
  unfolding add_label
  add_label-Allowed s b none v h le = tt
  add_label-Allowed s b (some label) v h le =
      (record { few_jumps = ground arith; ahead = ground arith }, omega arith)

  -- A round ends without a fault, in one of the ways allowed.
  abbrev RoundsTo : NameState → Option Round → Type 0
  RoundsTo s r = (o : Round) × (r ≡ some o) × Allowed s o

  slice_holds : (i n : ℕ) → i + n ≤ length msg → (bytes : List ℕ) × (slice msg i n ≡ some bytes)
  unfolding slice
  slice_holds i n h = (take n (drop i msg), ground arith)

  read_label-RoundsTo : (s : NameState) (b : ℕ) → Inv s → 0 < b → RoundsTo s (read_label msg s b)
  unfolding read_label
  read_label-RoundsTo s b v h = elim (Bool-cases (ltb (length msg) (s.pos + 1 + b))) [
    | inl beyond ↦ (fail, rw beyond, tt)
    | inr within ↦
        let (bytes, e) = slice_holds (s.pos + 1) b (ground arith) in
        (
          add_label s (s.pos + 1 + b) (from_utf8 bytes),
          rw (within, e),
          add_label-Allowed s b (from_utf8 bytes) v h (ground arith),
        )
  ]

  follow-RoundsTo :
      (s : NameState) (b : ℕ) → Inv s → RoundsTo s (some (follow s b (get_elem? msg (s.pos + 1))))
  unfolding follow
  follow-RoundsTo s b v = elim (Option-cases (get_elem? msg (s.pos + 1))) [
    | inl e ↦ rw e (fail, refl, tt)
    | inr (b2, e) ↦
        rw e (
          follow s b (some b2),
          refl,
          follow-Allowed s b b2 v (lt_of_get_elem? msg (s.pos + 1) b2 e),
        )
  ]

  read_byte-RoundsTo :
      (s : NameState) (b : ℕ) → Inv s → s.pos < length msg → RoundsTo s (read_byte msg s (some b))
  unfolding read_byte
  read_byte-RoundsTo s b v h = elim (Bool-cases (b == 0)) [
    | inl end ↦ rw end (finish_name s, refl, finish_name-Allowed s v h)
    | inr more ↦ elim (Bool-cases (bit_and b 0xc0 == 0xc0)) [
      | inl pointer ↦ rw (more, pointer) (follow-RoundsTo s b v)
      | inr label ↦ rw (more, label) (read_label-RoundsTo s b v (ground arith))
    ]
  ]

  round-RoundsTo : (s : NameState) → Inv s → RoundsTo s (round msg s)
  unfolding round
  round-RoundsTo s v = elim (Option-cases (get_elem? msg s.pos)) [
    | inl e ↦ rw (round, e) (fail, refl, tt)
    | inr (b, e) ↦ rw (round, e) (read_byte-RoundsTo s b v (lt_of_get_elem? msg s.pos b e))
  ]

  -- A name that was read ends behind its start and within the message.
  abbrev pub Advances : Option (Text × ℕ) → Type 0
  Advances none = Unit {0}
  Advances (some (out, end)) = (start < end) × (end ≤ length msg)

  abbrev pub Returns : Option (Option (Text × ℕ)) → Type 0
  Returns p = (r : Option (Text × ℕ)) × (p ≡ some r) × Advances r

  name_loop-Returns :
      (fuel : ℕ) (s : NameState) → Inv s → measure s < fuel → Returns (name_loop fuel msg s)
  unfolding name_loop
  name_loop-Returns zero s v h = absurd (omega arith)
  name_loop-Returns (suc fuel) s v h =
      let (o, e, allowed) = round-RoundsTo s v in
      rw (name_loop, e) (after (name_loop-Returns fuel) o allowed)
    where
      after :
          ((t : NameState) → Inv t → measure t < fuel → Returns (name_loop fuel msg t))
          → (o : Round) → Allowed s o
          → Returns (elim o [
            | fail ↦ some none
            | name out end ↦ some (some (out, end))
            | again t ↦ name_loop fuel msg t
          ])
      after next fail _ = (none, refl, tt)
      after next (name out end) bounds = (some (out, end), refl, bounds)
      after next (again t) (w, less) = next t w (omega arith)

-- For every message and every offset `parse_name` returns: its loop ends within the fuel and it
-- reads no byte out of range; and where it returns a name, the offset behind the name is greater
-- than the offset given and at most the length of the message.
pub parse_name_total : (msg : List ℕ) (offset : ℕ) → Returns msg offset (parse_name msg offset)
unfolding parse_name name_fuel
parse_name_total msg offset =
    name_loop-Returns msg offset (11 * (length msg + 1) + 1) _
      (record { few_jumps = omega arith; ahead = inl (refl, omega arith) }) (omega arith)
