-- ===== src/Platform/Linux/Netlink.antt =====
-- src/platform/linux/process.rs and netcfg.rs: the three loops that wait for a netlink reply. A
-- socket is the datagrams that it will deliver, after which its receive timeout fails; each fits
-- the spare capacity of the buffer. `recv` appends to the buffer and returns the datagram's length,
-- as the comment on `receive_buffer` says. `deserialize` of netlink-packet-core is a parameter.
pub mod Stale
use ace_tun.Base.{
  ℕ, zero, suc, ◌+◌, ◌%◌, ◌^◌, Bool, true, false, Option, none, some, List, [], ◌∷◌, ◌++◌, ◌==◌,
  if◌then◌else◌, length, take,
}

-- A reply's payload, with what the loops look at. `inner` is a message of the protocol.
pub data Payload (A : Type 0) : Type 0 where
  inner : A → Payload A
  done : Payload A
  -- The error code; `none` is an acknowledgement.
  error : Option ℕ → Payload A
  other : Payload A

pub record Message (A : Type 0) : Type 0 where
  pub sequence : ℕ
  pub payload : Payload A

abbrev pub Deserialize : Type 0 → Type 0
Deserialize A = List ℕ → Option (Message A)

-- What a sock_diag reply of the kernel carries: the inode.
unfoldable pub inode_of : ℕ → Option ℕ
inode_of inode = if inode == 0 then none else some inode

-- The message that a round parses: `&receive[..received]`, after the datagram was appended.
abbrev pub parsed : {A : Type 0} → Deserialize A → List ℕ → List ℕ → Option (Message A)
parsed deserialize receive datagram = deserialize (take (length datagram) (receive ++ datagram))

-- A round's payload, with the rest of the loop; likewise below.
abbrev pub on_inode : Payload ℕ → Option ℕ → Option ℕ
on_inode (inner inode) rest = inode_of inode
on_inode (error code) rest = none
on_inode done rest = rest
on_inode other rest = rest

-- The `loop` of `query_one`, for the sequence number of its request.
unfoldable pub query_loop : Deserialize ℕ → ℕ → List ℕ → List (List ℕ) → Option ℕ
unfolding inode_of
query_loop deserialize sequence receive [] = none
query_loop deserialize sequence receive (d ∷ ds) =
    let rest = query_loop deserialize sequence (receive ++ d) ds in
    elim (parsed deserialize receive d) [
      | none ↦ none
      | some m ↦ if m.sequence == sequence then on_inode m.payload rest else rest
    ]

-- A route's attributes: an outgoing interface, or any other.
pub data Attribute : Type 0 where
  oif : ℕ → Attribute
  unrelated : Attribute

unfoldable pub first_oif : List Attribute → Option ℕ
first_oif [] = none
first_oif (oif ifindex ∷ rest) = some ifindex
first_oif (unrelated ∷ rest) = first_oif rest

abbrev pub or_wait : Option ℕ → Option ℕ → Option ℕ
or_wait none rest = rest
or_wait (some ifindex) rest = some ifindex

abbrev pub on_route : Payload (List Attribute) → Option ℕ → Option ℕ
on_route (inner attributes) rest = or_wait (first_oif attributes) rest
on_route done rest = none
on_route (error code) rest = none
on_route other rest = rest

-- The `loop` of `best_route_index`.
unfoldable pub route_loop : Deserialize (List Attribute) → ℕ → List ℕ → List (List ℕ) → Option ℕ
unfolding first_oif
route_loop deserialize sequence receive [] = none
route_loop deserialize sequence receive (d ∷ ds) =
    let rest = route_loop deserialize sequence (receive ++ d) ds in
    elim (parsed deserialize receive d) [
      | none ↦ none
      | some m ↦ if m.sequence == sequence then on_route m.payload rest else rest
    ]

pub data Ack : Type 0 where
  acked : Ack
  refused : ℕ → Ack
  invalid : Ack
  timed_out : Ack

abbrev pub on_ack : {A : Type 0} → Payload A → Ack → Ack
on_ack (error none) rest = acked
on_ack (error (some code)) rest = refused code
on_ack done rest = acked
on_ack (inner message) rest = rest
on_ack other rest = rest

-- `wait_for_ack`, from what the buffer holds.
unfoldable pub ack_loop : {A : Type 0} → Deserialize A → ℕ → List ℕ → List (List ℕ) → Ack
ack_loop deserialize sequence receive [] = timed_out
ack_loop deserialize sequence receive (d ∷ ds) =
    let rest = ack_loop deserialize sequence (receive ++ d) ds in
    elim (parsed deserialize receive d) [
      | none ↦ invalid
      | some m ↦ if m.sequence == sequence then on_ack m.payload rest else rest
    ]

unfoldable pub wait_for_ack : {A : Type 0} → Deserialize A → ℕ → List (List ℕ) → Ack
unfolding ack_loop
wait_for_ack deserialize sequence socket = ack_loop deserialize sequence [] socket

-- The number of the next request, and the counter behind it.
unfoldable pub next_sequence : ℕ → ℕ × ℕ
next_sequence sequence = (sequence, (sequence + 1) % 2 ^ 32)

-- `request_ack` on a socket that accepts the request: the counter, and the answer.
unfoldable pub request_ack : {A : Type 0} → Deserialize A → ℕ → List (List ℕ) → ℕ × Ack
unfolding next_sequence wait_for_ack
request_ack deserialize sequence socket =
    let (number, next) = next_sequence sequence in (next, wait_for_ack deserialize number socket)
