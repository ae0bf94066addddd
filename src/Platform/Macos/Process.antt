-- ===== src/Platform/Macos/Process.antt =====
-- src/platform/macos/process.rs: the walk over a `pcblist_n` table. A table is its bytes. An outer
-- `none` of the walk is a fault: a slice out of range, or a loop whose fuel ran out. `usize` has 64
-- bits.
pub mod Total
pub mod Dump
pub mod Decode
pub mod Owner
pub mod Search
pub mod Layout
pub mod Resolve
pub mod Again
use ace_tun.Base.{
  ℕ, zero, suc, ◌+◌, ◌*◌, ◌-◌, ◌^◌, bit_and, Bool, true, false, not, ◌&&◌, Option, none, some, List,
  [], ◌∷◌, ltb, leb, ◌==◌, if◌then◌else◌, ◌>>=◌, ◌>>◌, guard, length, get_elem?, get_range,
}
use ace_tun.Base.Int.{ℤ, signed32, as_u32, is_positive}
use ace_tun.Base.Words.{from_le}
use ace_tun.Addr.{IpAddr, v4, v6, SocketAddr, ip_eq, is_ipv6, is_unspecified, from_octets}

abbrev pub inp_ipv6 : ℕ
inp_ipv6 = 0x2

abbrev pub xinpcb_offset_fport : ℕ
xinpcb_offset_fport = 16

abbrev pub xinpcb_offset_lport : ℕ
xinpcb_offset_lport = 18

abbrev pub xinpcb_offset_vflag : ℕ
xinpcb_offset_vflag = 44

abbrev pub xinpcb_offset_faddr : ℕ
xinpcb_offset_faddr = 48

abbrev pub xinpcb_offset_laddr : ℕ
xinpcb_offset_laddr = 64

abbrev pub xsocket_offset_last_pid : ℕ
xsocket_offset_last_pid = 68

abbrev pub xingpen_len : ℕ
xingpen_len = 24

-- The process, and 3 for a full four-tuple, 2 for a specific local endpoint, 1 for a wildcard bind.
pub record Candidate : Type 0 where
  pub pid : ℕ
  pub specificity : ℕ

unfoldable pub read_u32_le : List ℕ → ℕ → Option ℕ
unfolding from_le
read_u32_le bytes offset = do b ← get_range bytes offset (offset + 4); some (from_le b)

unfoldable pub read_u16_be : List ℕ → ℕ → Option ℕ
unfolding from_octets
read_u16_be bytes offset = do b ← get_range bytes offset (offset + 2); some (from_octets 0 b)

unfoldable pub read_i32_le : List ℕ → ℕ → Option ℤ
unfolding from_le
read_i32_le bytes offset = do b ← get_range bytes offset (offset + 4); some (signed32 (from_le b))

unfoldable pub read_address : List ℕ → ℕ → Bool → Option IpAddr
unfolding from_octets
read_address bytes offset true = do
  b ← get_range bytes offset (offset + 16)
  some (v6 (from_octets 0 b))
read_address bytes offset false = do
  b ← get_range bytes (offset + 12) (offset + 16)
  some (v4 (from_octets 0 b))

-- `checked_add` on `usize`.
abbrev pub checked_add : ℕ → ℕ → Option ℕ
checked_add a b = if ltb (a + b) (2 ^ 64) then some (a + b) else none

-- The end of a record that begins at an offset and declares its own length.
unfoldable pub record_end : List ℕ → ℕ → ℕ → Option ℕ
unfolding read_u32_le
record_end table offset least = do
  declared ← read_u32_le table offset
  guard (leb least declared)
  end ← checked_add offset declared
  guard (leb end (length table))
  some end

unfoldable pub next_record_pair : List ℕ → ℕ → Option (ℕ × ℕ)
unfolding record_end
next_record_pair table offset = do
  inpcb_end ← record_end table offset (xinpcb_offset_laddr + 16)
  socket_end ← record_end table inpcb_end (xsocket_offset_last_pid + 4)
  some (inpcb_end, socket_end)

-- How specifically a socket's endpoints match the flow's.
unfoldable pub specificity_of : IpAddr → IpAddr → ℕ → SocketAddr → SocketAddr → Option ℕ
unfolding ip_eq is_unspecified
specificity_of local_addr foreign_addr foreign_port local remote =
    if (not (foreign_port == 0) && not (is_unspecified foreign_addr))
      && (ip_eq local_addr local.ip
          && (ip_eq foreign_addr remote.ip && foreign_port == remote.port))
    then some 3
    else if not (is_unspecified local_addr) && ip_eq local_addr local.ip
    then some 2
    else if is_unspecified local_addr
    then some 1
    else none

abbrev pub candidate_of : ℤ → ℕ → Option Candidate
candidate_of pid specificity =
    if is_positive pid then some (record { pid = as_u32 pid; specificity = specificity }) else none

abbrev pub same_family : Bool → Bool → Bool
same_family true b = b
same_family false b = not b

-- The addresses and the foreign port of a socket with the flow's family and local port.
unfoldable pub record_endpoints : List ℕ → SocketAddr → Option (IpAddr × IpAddr × ℕ)
unfolding is_ipv6 read_u16_be read_address
record_endpoints inpcb local = do
  flags ← get_elem? inpcb xinpcb_offset_vflag
  let is_v6 = not (bit_and flags inp_ipv6 == 0)
  guard (same_family is_v6 (is_ipv6 local.ip))
  local_port ← read_u16_be inpcb xinpcb_offset_lport
  foreign_port ← read_u16_be inpcb xinpcb_offset_fport
  guard (local_port == local.port)
  local_addr ← read_address inpcb xinpcb_offset_laddr is_v6
  foreign_addr ← read_address inpcb xinpcb_offset_faddr is_v6
  some (local_addr, foreign_addr, foreign_port)

unfoldable pub rank_record : List ℕ → SocketAddr → SocketAddr → Option ℕ
unfolding record_endpoints specificity_of
rank_record inpcb local remote =
    record_endpoints inpcb local >>= λ e. specificity_of e.0 e.1 e.2 local remote

unfoldable pub score_record : List ℕ → List ℕ → SocketAddr → SocketAddr → Option Candidate
unfolding rank_record read_i32_le
score_record inpcb socket local remote = do
  specificity ← rank_record inpcb local remote
  pid ← read_i32_le socket xsocket_offset_last_pid
  candidate_of pid specificity

-- `is_none_or`: a candidate that is more specific than the best so far.
abbrev pub improves : Option Candidate → Candidate → Bool
improves none c = true
improves (some best) c = ltb best.specificity c.specificity

abbrev pub keep_best : Option Candidate → Option Candidate → Option Candidate
keep_best best none = best
keep_best best (some c) = if improves best c then some c else best

unfoldable pub scan_loop :
    ℕ → List ℕ → ℕ → Option Candidate → SocketAddr → SocketAddr → Option (Option Candidate)
unfolding next_record_pair score_record
scan_loop zero table offset best local remote = none
scan_loop (suc fuel) table offset best local remote = elim (next_record_pair table offset) [
  | none ↦ some best
  | some (inpcb_end, socket_end) ↦ do
    inpcb ← get_range table offset inpcb_end
    socket ← get_range table inpcb_end socket_end
    scan_loop fuel table socket_end (keep_best best (score_record inpcb socket local remote)) local
        remote
]

abbrev pub pid_of : Option Candidate → Option ℕ
pid_of none = none
pid_of (some c) = some c.pid

-- Every record moves the walk forward, so that a round for each byte is enough.
unfoldable pub scan_pcblist : List ℕ → SocketAddr → SocketAddr → Option (Option ℕ)
scan_pcblist table local remote = elim (read_u32_le table 0) [
  | none ↦ some none
  | some offset ↦
      if ltb offset xingpen_len
      then some none
      else scan_loop (suc (length table)) table offset none local remote >>= λ best.
          some (pid_of best)
]
