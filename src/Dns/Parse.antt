-- ===== src/Dns/Parse.antt =====
-- src/dns.rs: `parse_dns_answers` and `parse_name`, over the bytes of a message. The outer `none`
-- of a parser is a fault of the code: an index or a slice out of range, or a loop whose fuel ran
-- out. A byte is below 256.
pub mod Name
pub mod Answers
use mathlib.Core.Option
use ace_tun.Base.{
  ℕ, zero, suc, ◌+◌, ◌-◌, ◌*◌, bit_and, Bool, true, false, ◌&&◌, ◌||◌, Option, none, some, List, [],
  ◌∷◌, ◌++◌, ltb, leb, ◌==◌, if◌then◌else◌, ◌>>=◌, length, get_elem?, take, drop, is_nil,
}
use ace_tun.Text.{Text}
use ace_tun.Text.Utf8.{from_utf8}
use ace_tun.Addr.{IpAddr, v4, v6, from_octets}

-- `&msg[i..i + n]`, a panic where it reaches beyond the end.
unfoldable pub slice : List ℕ → ℕ → ℕ → Option (List ℕ)
slice msg i n = if leb (i + n) (length msg) then some (take n (drop i msg)) else none

-- `u16::from_be_bytes` of two indexed bytes.
unfoldable pub be16 : List ℕ → ℕ → Option ℕ
be16 msg i = do hi ← get_elem? msg i; lo ← get_elem? msg (i + 1); some (hi * 256 + lo)

-- The loop variables of `parse_name`.
pub record NameState : Type 0 where
  pub pos : ℕ
  pub out : Text
  pub jumps : ℕ
  pub jumped : Bool
  pub jumped_end : ℕ

-- How a round of the loop ends: with the next state, or by a return of `None`, or of the name and
-- the offset behind it.
pub data Round : Type 0 where
  again : NameState → Round
  fail : Round
  name : Text → ℕ → Round

abbrev pub dot : Text → Text
dot [] = []
dot (c ∷ t) = (c ∷ t) ++ b'.' ∷ []

unfoldable pub finish_name : NameState → Round
finish_name s = name s.out (if s.jumped then s.jumped_end else s.pos + 1)

-- A compression pointer, whose first byte is `b` and whose second, if there is one, is given. The
-- second byte fills the eight zero bits under the first, so that the bitwise `or` is a sum.
unfoldable pub follow : NameState → ℕ → Option ℕ → Round
follow s b none = fail
follow s b (some b2) =
    if ltb 10 (s.jumps + 1)
    then fail
    else again (record {
      pos = bit_and b 0x3f * 256 + b2;
      out = s.out;
      jumps = s.jumps + 1;
      jumped = true;
      jumped_end = if s.jumped then s.jumped_end else s.pos + 2;
    })

unfoldable pub add_label : NameState → ℕ → Option Text → Round
add_label s next none = fail
add_label s next (some label) = again (record s { pos = next; out = dot s.out ++ label })

-- A label of `b` bytes behind the position.
unfoldable pub read_label : List ℕ → NameState → ℕ → Option Round
unfolding slice add_label from_utf8
read_label msg s b =
    if ltb (length msg) (s.pos + 1 + b)
    then some fail
    else do bytes ← slice msg (s.pos + 1) b; some (add_label s (s.pos + 1 + b) (from_utf8 bytes))

unfoldable pub read_byte : List ℕ → NameState → Option ℕ → Option Round
unfolding finish_name follow read_label
read_byte msg s none = some fail
read_byte msg s (some b) =
    if b == 0
    then some (finish_name s)
    else if bit_and b 0xc0 == 0xc0
    then some (follow s b (get_elem? msg (s.pos + 1)))
    else read_label msg s b

unfoldable pub round : List ℕ → NameState → Option Round
unfolding read_byte
round msg s = read_byte msg s (get_elem? msg s.pos)

unfoldable pub name_loop : ℕ → List ℕ → NameState → Option (Option (Text × ℕ))
unfolding round
name_loop zero msg s = none
name_loop (suc fuel) msg s = elim (round msg s) [
  | none ↦ none
  | some fail ↦ some none
  | some (name out end) ↦ some (some (out, end))
  | some (again t) ↦ name_loop fuel msg t
]

-- Eleven passes over the message: the start and ten jumps.
unfoldable pub name_fuel : List ℕ → ℕ
name_fuel msg = 11 * (length msg + 1) + 1

-- The name and the offset behind it.
unfoldable pub parse_name : List ℕ → ℕ → Option (Option (Text × ℕ))
unfolding name_loop name_fuel
parse_name msg offset =
    name_loop (name_fuel msg) msg
      (record { pos = offset; out = []; jumps = 0; jumped = false; jumped_end = 0 })

abbrev pub Answers : Type 0
Answers = List (IpAddr × Text)

-- The rest of `parse_dns_answers` is written with the early returns as `none` of the inner `Option`.

-- The remaining questions: the offset behind them.
unfoldable pub skip_questions : ℕ → List ℕ → ℕ → Option (Option ℕ)
unfolding parse_name
skip_questions zero msg offset = some (some offset)
skip_questions (suc n) msg offset =
    if leb (length msg) offset then some none else elim (parse_name msg offset) [
      | none ↦ none
      | some none ↦ some none
      | some (some (_, end)) ↦ elim (ltb (length msg) (end + 4)) [
        | true ↦ some none
        | false ↦ skip_questions n msg (end + 4)
      ]
    ]

-- The record data at an offset, for the types A and AAAA of the class IN.
unfoldable pub read_answer : List ℕ → Text → ℕ → ℕ → ℕ → ℕ → Option Answers
unfolding slice from_octets
read_answer msg qname rtype rclass offset rdlen =
    if rclass == 1
    then (if rtype == 1 && rdlen == 4
        then Option.map (λ b. (v4 (from_octets 0 b), qname) ∷ []) (slice msg offset 4)
        else (if rtype == 28 && rdlen == 16
            then Option.map (λ b. (v6 (from_octets 0 b), qname) ∷ []) (slice msg offset 16)
            else some []))
    else some []

-- The rest of a record whose data begins at `offset`.
unfoldable pub finish_record : List ℕ → Text → ℕ → ℕ → ℕ → ℕ → Option (Option (Answers × ℕ))
unfolding read_answer
finish_record msg qname offset rtype rclass rdlen =
    if ltb (length msg) (offset + rdlen)
    then some none
    else Option.map (λ a. some (a, offset + rdlen))
        (read_answer msg qname rtype rclass offset rdlen)

-- One resource record behind its name: what it adds, and the offset behind it; an inner `none` ends
-- the loop.
unfoldable pub read_record : List ℕ → Text → ℕ → Option (Option (Answers × ℕ))
unfolding be16 finish_record
read_record msg qname offset = if ltb (length msg) (offset + 10) then some none else do
  rtype ← be16 msg offset
  rclass ← be16 msg (offset + 2)
  rdlen ← be16 msg (offset + 8)
  finish_record msg qname (offset + 10) rtype rclass rdlen

unfoldable pub read_answers : ℕ → List ℕ → Text → ℕ → Option Answers
unfolding parse_name read_record
read_answers zero msg qname offset = some []
read_answers (suc n) msg qname offset =
    if leb (length msg) offset then some [] else elim (parse_name msg offset) [
      | none ↦ none
      | some none ↦ some []
      | some (some (_, end)) ↦ elim (read_record msg qname end) [
        | none ↦ none
        | some none ↦ some []
        | some (some (found, next)) ↦
            Option.map (λ rest. found ++ rest) (read_answers n msg qname next)
      ]
    ]

-- The questions and the answers, by their counts.
unfoldable pub read_sections : List ℕ → ℕ → ℕ → Option Answers
unfolding parse_name skip_questions read_answers
read_sections msg qdcount ancount = elim (parse_name msg 12) [
  | none ↦ none
  | some none ↦ some []
  | some (some (qname, end)) ↦
      if ltb (length msg) (end + 4)
      then some []
      else elim (skip_questions (qdcount - 1) msg (end + 4)) [
        | none ↦ none
        | some none ↦ some []
        | some (some offset) ↦ read_answers ancount msg qname offset
      ]
]

-- A response, without an error code, that has answers.
unfoldable pub has_answers : ℕ → ℕ → Bool
has_answers flags ancount =
    if bit_and flags 0x8000 == 0
    then false
    else if bit_and flags 0xf == 0
    then (if ancount == 0 then false else true)
    else false

unfoldable pub parse_dns_answers : List ℕ → Option Answers
unfolding be16 read_sections has_answers
parse_dns_answers payload = if ltb (length payload) 12 then some [] else do
  flags ← be16 payload 2
  qdcount ← be16 payload 4
  ancount ← be16 payload 6
  if has_answers flags ancount then read_sections payload qdcount ancount else some []
