-- ===== src/Platform/Macos/Process/Decode.antt =====
-- src/platform/macos/process.rs: what `score_record` reads from the bytes of a record pair.
use mathlib.Core.Path.{fun_ext}
use ace_tun.Base.{
  zero, suc, ◌-◌, ◌≤◌, Bool, not, bit_and, List, [], ◌∷◌, ◌++◌, refl, sym, ap, ◌∙◌, length,
  length-append, get_elem?, get_range, get_range-of_le, take, take-append_le, drop, ℕ, ◌+◌, ◌^◌,
  ◌<◌, true, false, Option, none, some, ◌≡◌, arith, ◌==◌, if◌then◌else◌, guard, ◌>>◌, lt→ltb,
}
use ace_tun.Base.Words.{from_le}
use ace_tun.Addr.{IpAddr, v4, v6, SocketAddr, is_ipv6}
use ace_tun.Base.Int.{pos}
use ace_tun.Addr.Laws.{from_octets-octets_v4, from_octets-octets_v6, from_octets-octets_port}
use ace_tun.Platform.Macos.Process.{
  Candidate, read_u16_be, read_i32_le, read_address, record_endpoints, score_record, rank_record,
  same_family,
}
use ace_tun.Platform.Macos.Process.Dump.{
  Socket, Rest, IsSocket, le_bytes, inpcb_front, socket_front, inpcb_of, socket_of, is_connection,
  is_bound, is_wildcard,
}

abbrev pub socket_at : ℕ → IpAddr → ℕ → IpAddr → ℕ → ℕ → Rest → Socket
socket_at pid la lp fa fp vflag rest = record {
  pid = pid;
  local_addr = la;
  local_port = lp;
  foreign_addr = fa;
  foreign_port = fp;
  vflag = vflag;
  rest = rest;
}

endpoints_v4 :
    (pid la lp fa fp vflag len : ℕ) (rest : Rest) (local : SocketAddr)
    → la < 2 ^ 32
    → fa < 2 ^ 32
    → lp < 65536
    → fp < 65536
    → not (bit_and vflag 0x2 == 0) ≡ false
    → record_endpoints (inpcb_front (socket_at pid (v4 la) lp (v4 fa) fp vflag rest) len) local ≡ (
        guard (same_family false (is_ipv6 local.ip))
        >> (guard (lp == local.port) >> some (v4 la, v4 fa, fp)))
unfolding record_endpoints inpcb_front read_address read_u16_be
endpoints_v4 pid la lp fa fp vflag len rest local hla hfa hlp hfp flag = rw (
  flag,
  from_octets-octets_v4 la hla,
  from_octets-octets_v4 fa hfa,
  from_octets-octets_port lp hlp,
  from_octets-octets_port fp hfp,
)

endpoints_v6 :
    (pid la lp fa fp vflag len : ℕ) (rest : Rest) (local : SocketAddr)
    → la < 2 ^ 128
    → fa < 2 ^ 128
    → lp < 65536
    → fp < 65536
    → not (bit_and vflag 0x2 == 0) ≡ true
    → record_endpoints (inpcb_front (socket_at pid (v6 la) lp (v6 fa) fp vflag rest) len) local ≡ (
        guard (same_family true (is_ipv6 local.ip))
        >> (guard (lp == local.port) >> some (v6 la, v6 fa, fp)))
unfolding record_endpoints inpcb_front read_address read_u16_be
endpoints_v6 pid la lp fa fp vflag len rest local hla hfa hlp hfp flag = rw (
  flag,
  from_octets-octets_v6 la hla,
  from_octets-octets_v6 fa hfa,
  from_octets-octets_port lp hlp,
  from_octets-octets_port fp hfp,
)

endpoints_at :
    (pid : ℕ) (la : IpAddr) (lp : ℕ) (fa : IpAddr) (fp vflag len : ℕ) (rest : Rest)
    (local : SocketAddr)
    → IsSocket (socket_at pid la lp fa fp vflag rest)
    → record_endpoints (inpcb_front (socket_at pid la lp fa fp vflag rest) len) local ≡ (
        guard (same_family (is_ipv6 la) (is_ipv6 local.ip))
        >> (guard (lp == local.port) >> some (la, fa, fp)))
unfolding is_ipv6
endpoints_at pid (v4 la) lp (v4 fa) fp vflag len rest local w =
    endpoints_v4 pid la lp fa fp vflag len rest local w.local_valid w.foreign_valid
      w.local_port_small w.foreign_port_small w.vflag_family
endpoints_at pid (v6 la) lp (v6 fa) fp vflag len rest local w =
    endpoints_v6 pid la lp fa fp vflag len rest local w.local_valid w.foreign_valid
      w.local_port_small w.foreign_port_small w.vflag_family
endpoints_at pid (v4 la) lp (v6 fa) fp vflag len rest local w = cc w.family
endpoints_at pid (v6 la) lp (v4 fa) fp vflag len rest local w = cc w.family

pub length-inpcb_front : (s : Socket) (len : ℕ) → length (inpcb_front s len) ≡ 80
unfolding inpcb_front
length-inpcb_front s len =
    at s.pid s.local_addr s.local_port s.foreign_addr s.foreign_port s.vflag s.rest
  where
    at :
        (pid : ℕ) (la : IpAddr) (lp : ℕ) (fa : IpAddr) (fp vflag : ℕ) (rest : Rest)
        → length (inpcb_front (socket_at pid la lp fa fp vflag rest) len) ≡ 80
    at pid (v4 la) lp (v4 fa) fp vflag rest = refl
    at pid (v4 la) lp (v6 fa) fp vflag rest = refl
    at pid (v6 la) lp (v4 fa) fp vflag rest = refl
    at pid (v6 la) lp (v6 fa) fp vflag rest = refl

-- A range in the front of a list does not depend on what stands behind.
get_range-front :
    (xs ys : List ℕ) (start end : ℕ)
    → start ≤ end
    → end ≤ length xs
    → get_range (xs ++ ys) start end ≡ get_range xs start end
get_range-front xs ys start end h k =
    get_range-of_le (xs ++ ys) start end h (omega (arith, length-append xs ys))
    ∙ ap some (front xs start (end - start) (omega arith))
    ∙ sym (get_range-of_le xs start end h k)
  where
    front :
        (xs : List ℕ) (start n : ℕ)
        → start + n ≤ length xs
        → take n (drop start (xs ++ ys)) ≡ take n (drop start xs)
    front xs zero n h = take-append_le n xs ys (omega arith)
    front [] (suc start) n h = absurd (omega arith)
    front (x ∷ xs) (suc start) n h = front xs start n (omega arith)

get_elem?-front : (xs ys : List ℕ) (i : ℕ) → i < length xs → get_elem? (xs ++ ys) i ≡ get_elem? xs i
get_elem?-front [] ys i h = absurd (omega arith)
get_elem?-front (x ∷ xs) ys zero h = refl
get_elem?-front (x ∷ xs) ys (suc i) h = get_elem?-front xs ys i (omega arith)

read_address-front :
    (front tail : List ℕ) (at : ℕ) (is_v6 : Bool)
    → at + 16 ≤ length front
    → read_address (front ++ tail) at is_v6 ≡ read_address front at is_v6
unfolding read_address
read_address-front front tail at true k =
    rw (get_range-front front tail at (at + 16) (omega arith) k)
read_address-front front tail at false k =
    rw (get_range-front front tail (at + 12) (at + 16) (omega arith) k)

record_endpoints-front :
    (front tail : List ℕ) (local : SocketAddr)
    → length front ≡ 80
    → record_endpoints (front ++ tail) local ≡ record_endpoints front local
unfolding record_endpoints read_u16_be
record_endpoints-front front tail local h = rw (
  get_elem?-front front tail 44 (omega arith),
  get_range-front front tail 18 20 (omega arith) (omega arith),
  get_range-front front tail 16 18 (omega arith) (omega arith),
  fun_ext (λ b. read_address-front front tail 64 b (omega arith)),
  fun_ext (λ b. read_address-front front tail 48 b (omega arith)),
)

pub from_le-le_bytes : (n : ℕ) → n < 2 ^ 32 → from_le (le_bytes n) ≡ n
unfolding from_le
from_le-le_bytes n h = omega arith

-- The four bytes of a process id.
read_pid : (s : Socket) → s.pid < 2 ^ 31 → read_i32_le (socket_of s) 68 ≡ some (pos s.pid)
unfolding read_i32_le socket_of
read_pid s h =
    let front = socket_front s (72 + length s.rest.socket_tail) in
    rw (
      get_range-front front s.rest.socket_tail 68 72 (omega arith) (omega arith),
      from_le-le_bytes s.pid (omega arith),
      lt→ltb s.pid (2 ^ 31) h,
    )

-- The candidate that a socket is for a flow.
unfoldable pub candidate : SocketAddr → SocketAddr → Socket → Option Candidate
candidate local remote s =
    if is_connection local remote s
    then some (record { pid = s.pid; specificity = 3 })
    else if is_bound local remote s
    then some (record { pid = s.pid; specificity = 2 })
    else if is_wildcard local remote s
    then some (record { pid = s.pid; specificity = 1 })
    else none

pub score_record-of_socket :
    (s : Socket) (local remote : SocketAddr)
    → IsSocket s
    → score_record (inpcb_of s) (socket_of s) local remote ≡ candidate local remote s
unfolding score_record rank_record inpcb_of candidate is_connection is_bound is_wildcard
score_record-of_socket s local remote w =
    let len = 80 + length s.rest.inpcb_tail in
    rw
      (
        record_endpoints-front (inpcb_front s len) s.rest.inpcb_tail local
            (length-inpcb_front s len),
        endpoints_at s.pid s.local_addr s.local_port s.foreign_addr s.foreign_port s.vflag len
            s.rest local w,
        read_pid s w.pid_small,
      )
      (ground arith)
