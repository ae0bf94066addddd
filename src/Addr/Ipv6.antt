-- ===== src/Addr/Ipv6.antt =====
-- `Ipv6Addr::from_str`.
use ace_tun.Base.{
  ℕ, zero, suc, ◌+◌, ◌-◌, ◌*◌, ◌/◌, ◌%◌, ◌^◌, Bool, true, false, Option, none, some, List, [], ◌∷◌,
  ltb, ◌==◌, if◌then◌else◌, ◌>>=◌, length,
}
use ace_tun.Text.{Text}
use ace_tun.Addr.Ipv4.{Reader, read_given_char, read_number, read_ipv4, finish}

-- `read_separator`: a colon before every group but the first.
separated {ℓ} : {A : Type ℓ} → Bool → (Text → Option (A × Text)) → Text → Option (A × Text)
unfolding read_given_char
separated true read t = read t
separated false read t = read_given_char b':' t >>= λ r. read r.1

-- The groups read, whether they end in an IPv4 address, and the rest.
abbrev Groups : Type 0
Groups = List ℕ × Bool × Text

cons_group : ℕ → Groups → Groups
cons_group g (gs, ipv4, rest) = (g ∷ gs, ipv4, rest)

-- `read_groups`, by the number of slots left and whether this is the first group.
read_groups : ℕ → Bool → Text → Groups
unfolding separated read_number read_ipv4 cons_group
read_groups zero first t = ([], false, t)
read_groups (suc slots) first t = elim (if ltb 0 slots then separated first read_ipv4 t else none) [
  | some (a, rest) ↦ (a / 65536 ∷ a % 65536 ∷ [], true, rest)
  | none ↦ elim (separated first (read_number 16 4 65535 true) t) [
    | some (g, rest) ↦ cons_group g (read_groups slots false rest)
    | none ↦ ([], false, t)
  ]
]

from_groups : ℕ → List ℕ → ℕ
from_groups acc [] = acc
from_groups acc (g ∷ gs) = from_groups (acc * 65536 + g) gs

read_ipv6 : Reader ℕ
unfolding read_groups from_groups
read_ipv6 t =
    let (head, head_ipv4, rest) = read_groups 8 true t in
    if length head == 8 then some (from_groups 0 head, rest) else if head_ipv4 then none else do
      (_, t) ← read_given_char b':' rest
      (_, t) ← read_given_char b':' t
      let (tail, _, t) = read_groups (8 - (length head + 1)) true t
      some (from_groups 0 head * 65536 ^ (8 - length head) + from_groups 0 tail, t)

unfoldable pub parse_ipv6 : Text → Option ℕ
unfolding read_ipv6 finish
parse_ipv6 t = finish (read_ipv6 t)
