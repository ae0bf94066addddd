-- ===== src/Platform/Macos/Process/Owner.antt =====
-- src/platform/macos/process.rs: the walk over a table of records takes each of them in turn.
use ace_tun.Base.{
  ℕ, zero, suc, ◌+◌, ◌-◌, ◌^◌, ◌≤◌, ◌<◌, Option, none, some, List, [], ◌∷◌, ◌++◌, ◌≡◌, refl, arith,
  sym, ap, ◌∙◌, length, get_range, get_range-of_le, lt→ltb, le→leb, length-append, drop-append,
  append_assoc, append-nil, take, take-append_le, All,
}
use ace_tun.Addr.{SocketAddr}
use ace_tun.Platform.Macos.Process.{
  Candidate, read_u32_le, record_end, next_record_pair, scan_loop, keep_best,
}
use ace_tun.Platform.Macos.Process.Dump.{
  Socket, IsSocket, le_bytes, inpcb_front, socket_front, inpcb_of, socket_of, record_pair, records,
}
use ace_tun.Platform.Macos.Process.Decode.{
  candidate, length-inpcb_front, from_le-le_bytes, score_record-of_socket,
}

-- A range within a part of a list that stands behind another part.
get_range-append {ℓ} :
    {A : Type ℓ} (pre body post : List A) (n : ℕ)
    → n ≤ length body
    → get_range (pre ++ (body ++ post)) (length pre) (length pre + n) ≡ some (take n body)
get_range-append pre body post n h =
    get_range-of_le (pre ++ (body ++ post)) (length pre) (length pre + n) (omega arith)
      (omega (arith, length-append pre (body ++ post), length-append body post))
    ∙ ap some (
        let width : length pre + n - length pre ≡ n = omega arith in
        rw (width, drop-append pre (body ++ post)) (take-append_le n body post h))

take_all {ℓ} : {A : Type ℓ} (xs : List A) → take (length xs) xs ≡ xs
take_all [] = refl
take_all (x ∷ xs) = ap (◌∷◌ x) (take_all xs)

-- The bytes of a record that declares its own length.
abbrev pub IsRecord : ℕ → List ℕ → Type 0
IsRecord least body =
    (read_u32_le body 0 ≡ some (length body)) × (least ≤ length body) × (4 ≤ least)

module _ (pre body post : List ℕ) (least : ℕ) (is : IsRecord least body)
    (small : length (pre ++ (body ++ post)) < 2 ^ 64) where
  pub read_u32_le-append : read_u32_le (pre ++ (body ++ post)) (length pre) ≡ some (length body)
  unfolding read_u32_le
  read_u32_le-append =
      let four : 4 ≤ length body = omega arith in
      let whole : get_range body 0 4 ≡ some (take 4 body) =
        get_range-of_le body 0 4 (omega arith) four in
      rw (get_range-append pre body post 4 four) (rw whole at (is.0))

  record_end-append :
      record_end (pre ++ (body ++ post)) (length pre) least ≡ some (length pre + length body)
  unfolding record_end
  record_end-append =
      let total : length (pre ++ (body ++ post)) ≡ length pre + (length body + length post) =
        length-append pre (body ++ post) ∙ ap (◌+◌ (length pre)) (length-append body post) in
      let fits : length pre + length body < 2 ^ 64 = omega arith in
      let inside : length pre + length body ≤ length (pre ++ (body ++ post)) = omega arith in
      rw (read_u32_le-append, le→leb least (length body) (is.1), lt→ltb _ _ fits, le→leb _ _ inside)

read_first :
    (len : ℕ) (more : List ℕ) → len < 2 ^ 32 → read_u32_le (le_bytes len ++ more) 0 ≡ some len
unfolding read_u32_le
read_first len more short =
    rw (get_range-append [] (le_bytes len) more 4 (omega arith), from_le-le_bytes len short) refl

-- A front that begins with the length of the whole record makes a record of what it begins.
front-IsRecord :
    (least len : ℕ) (front more tail : List ℕ)
    → front ≡ le_bytes len ++ more
    → length front ≡ least
    → 4 ≤ least
    → len ≡ least + length tail
    → len < 2 ^ 32
    → IsRecord least (front ++ tail)
front-IsRecord least len front more tail begins size four same short =
    let total : length (front ++ tail) ≡ len =
      length-append front tail ∙ omega (arith, size, same) in
    (
      ap (λ (f : List ℕ). read_u32_le (f ++ tail) 0) begins
          ∙ read_first len (more ++ tail) short
          ∙ ap some (sym total),
      omega (arith, total, same),
      four,
    )

module _ (s : Socket) (w : IsSocket s) where
  inpcb_of-IsRecord : IsRecord 80 (inpcb_of s)
  unfolding inpcb_of inpcb_front
  inpcb_of-IsRecord =
      let len = 80 + length s.rest.inpcb_tail in
      front-IsRecord 80 len (inpcb_front s len) _ s.rest.inpcb_tail refl (length-inpcb_front s len)
        (omega arith) refl w.inpcb_short

  socket_of-IsRecord : IsRecord 72 (socket_of s)
  unfolding socket_of socket_front
  socket_of-IsRecord =
      let len = 72 + length s.rest.socket_tail in
      front-IsRecord 72 len (socket_front s len) _ s.rest.socket_tail refl refl (omega arith) refl
        w.socket_short

-- One pair of records in the middle of a table.
module _ (pre post : List ℕ) (s : Socket) (w : IsSocket s)
    (small : length (pre ++ (record_pair s ++ post)) < 2 ^ 64) where
  abbrev inpcb_end : ℕ
  inpcb_end = length pre + length (inpcb_of s)

  abbrev socket_end : ℕ
  socket_end = length (pre ++ inpcb_of s) + length (socket_of s)

  regroup : pre ++ (record_pair s ++ post) ≡ pre ++ (inpcb_of s ++ (socket_of s ++ post))
  unfolding record_pair
  regroup = rw (append_assoc (inpcb_of s) (socket_of s) post)

  split_pair : pre ++ (record_pair s ++ post) ≡ (pre ++ inpcb_of s) ++ (socket_of s ++ post)
  split_pair = regroup ∙ sym (append_assoc pre (inpcb_of s) (socket_of s ++ post))

  length_front : length (pre ++ inpcb_of s) ≡ inpcb_end
  length_front = length-append pre (inpcb_of s)

  first_end : record_end (pre ++ (record_pair s ++ post)) (length pre) 80 ≡ some inpcb_end
  first_end =
      ap (λ t. record_end t (length pre) 80) regroup
      ∙ record_end-append pre (inpcb_of s) (socket_of s ++ post) 80 (inpcb_of-IsRecord s w)
          (omega (arith, ap length regroup))

  second_end : record_end (pre ++ (record_pair s ++ post)) inpcb_end 72 ≡ some socket_end
  second_end =
      (λ i. record_end (split_pair i) (sym length_front i) 72)
      ∙ record_end-append (pre ++ inpcb_of s) (socket_of s) post 72 (socket_of-IsRecord s w)
          (omega (arith, ap length split_pair))

  next_record_pair-append :
      next_record_pair (pre ++ (record_pair s ++ post)) (length pre) ≡ some (inpcb_end, socket_end)
  unfolding next_record_pair
  next_record_pair-append = rw (first_end, second_end)

  inpcb_range :
      get_range (pre ++ (record_pair s ++ post)) (length pre) inpcb_end ≡ some (inpcb_of s)
  inpcb_range =
      ap (λ t. get_range t (length pre) inpcb_end) regroup
      ∙ get_range-append pre (inpcb_of s) (socket_of s ++ post) (length (inpcb_of s)) (omega arith)
      ∙ ap some (take_all (inpcb_of s))

  socket_range :
      get_range (pre ++ (record_pair s ++ post)) inpcb_end socket_end ≡ some (socket_of s)
  socket_range =
      (λ i. get_range (split_pair i) (sym length_front i) socket_end)
      ∙ get_range-append (pre ++ inpcb_of s) (socket_of s) post (length (socket_of s)) (omega arith)
      ∙ ap some (take_all (socket_of s))

length-record_pair :
    (s : Socket) → length (record_pair s) ≡ length (inpcb_of s) + length (socket_of s)
unfolding record_pair
length-record_pair s = length-append (inpcb_of s) (socket_of s)

inpcb_of_filled : (s : Socket) → 80 ≤ length (inpcb_of s)
unfolding inpcb_of
inpcb_of_filled s =
    let len = 80 + length s.rest.inpcb_tail in
    omega (arith, length-append (inpcb_front s len) s.rest.inpcb_tail, length-inpcb_front s len)

pub length-records : (ss : List Socket) → length ss ≤ length (records ss)
unfolding records
length-records [] = omega arith
length-records (s ∷ ss) = omega (
  arith,
  length-append (record_pair s) (records ss),
  length-records ss,
  length-record_pair s,
  inpcb_of_filled s,
)

-- The best candidate of the sockets, in the table's order.
unfoldable pub best_of : SocketAddr → SocketAddr → Option Candidate → List Socket → Option Candidate
best_of local remote best [] = best
best_of local remote best (s ∷ ss) =
    best_of local remote (keep_best best (candidate local remote s)) ss

next_record_pair_end : (table : List ℕ) → next_record_pair table (length table) ≡ none
unfolding next_record_pair record_end read_u32_le
next_record_pair_end table = ground arith

pub scan_loop-records :
    (fuel : ℕ) (pre : List ℕ) (ss : List Socket) (best : Option Candidate)
    (local remote : SocketAddr)
    → length ss < fuel
    → length (pre ++ records ss) < 2 ^ 64
    → All IsSocket ss
    → scan_loop fuel (pre ++ records ss) (length pre) best local remote
      ≡ some (best_of local remote best ss)
unfolding scan_loop records best_of
scan_loop-records zero pre ss best local remote enough small w = elim enough [ ]
scan_loop-records (suc fuel) pre [] best local remote enough small w =
    rw (append-nil pre) (rw (next_record_pair_end pre, scan_loop))
scan_loop-records (suc fuel) pre (s ∷ ss) best local remote enough small (ws, w) =
    let table = pre ++ (record_pair s ++ records ss) in
    let best' = keep_best best (candidate local remote s) in
    let behind : table ≡ (pre ++ record_pair s) ++ records ss =
      sym (append_assoc pre (record_pair s) (records ss)) in
    let start : socket_end pre (records ss) s ws small ≡ length (pre ++ record_pair s) = omega (
      arith,
      length-append pre (record_pair s),
      length-append pre (inpcb_of s),
      length-record_pair s,
    ) in
    rw
      (
        next_record_pair-append pre (records ss) s ws small,
        scan_loop,
        inpcb_range pre (records ss) s ws small,
        socket_range pre (records ss) s ws small,
        score_record-of_socket s local remote ws,
      )
      ((λ i. scan_loop fuel (behind i) (start i) best' local remote)
        ∙ scan_loop-records fuel (pre ++ record_pair s) ss best' local remote (omega arith)
            (omega (arith, ap length behind)) w)
