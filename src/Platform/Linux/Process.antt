-- ===== src/Platform/Linux/Process.antt =====
-- src/platform/linux/process.rs: from a flow's endpoints over the socket's inode to the process. The
-- state is the cache; the kernel's answers and `/proc` are parameters.
pub mod Scan
pub mod Inode
pub mod Diag
pub mod Attribution
use mathlib.Core.Option
use ace_tun.Base.{
  ℕ, ◌+◌, ◌-◌, ◌*◌, ◌/◌, ◌%◌, ◌^◌, bit_and, Bool, true, false, not, ◌&&◌, Option, none, some, List,
  [], ◌∷◌, ◌++◌, ◌==◌, if◌then◌else◌, ◌>>=◌, or_else, is_nil, get_elem?,
}
use ace_tun.Text.{Text, codes, trim, parse_uint}
use ace_tun.Text.Decimal.{decimal}
use ace_tun.Addr.{IpAddr, v4, v6, SocketAddr, is_ipv4}
use ace_tun.Platform.Process.{Endpoints, key_of, cached, remember}

-- The capability words that `capget` reports as effective, `none` where the call fails.
abbrev pub cap_net_admin : ℕ
cap_net_admin = 12

abbrev pub cap_net_raw : ℕ
cap_net_raw = 13

-- `none` is an index out of range.
unfoldable pub has_capability : List ℕ → ℕ → Option Bool
has_capability effective cap = do
  word ← get_elem? effective (cap / 32)
  some (not (bit_and word (2 ^ (cap % 32)) == 0))

unfoldable pub is_privileged : Option (List ℕ) → ℕ → Option Bool
unfolding has_capability
is_privileged none effective_uid = some (effective_uid == 0)
is_privileged (some effective) effective_uid = do
  admin ← has_capability effective cap_net_admin
  raw ← has_capability effective cap_net_raw
  some (admin && raw)

pub record SocketId : Type 0 where
  pub source_port : ℕ
  pub destination_port : ℕ
  pub source_address : IpAddr
  pub destination_address : IpAddr
  pub interface_id : ℕ
  pub cookie : List ℕ

-- `AF_INET` and `AF_INET6`, `IPPROTO_TCP` and `IPPROTO_UDP`.
pub data Family : Type 0 where
  inet inet6 : Family

pub data Protocol : Type 0 where
  tcp udp : Protocol

unfoldable pub wildcard : IpAddr → IpAddr
wildcard (v4 a) = v4 0
wildcard (v6 a) = v6 0

abbrev pub Query : Type 0
Query = Family → Protocol → SocketId → Option ℕ

unfoldable pub family_of : IpAddr → Family
family_of (v4 a) = inet
family_of (v6 a) = inet6

abbrev pub socket_id : ℕ → IpAddr → ℕ → IpAddr → SocketId
socket_id sport src dport dst = record {
  source_port = sport;
  destination_port = dport;
  source_address = src;
  destination_address = dst;
  interface_id = 0;
  cookie = 0xff ∷ 0xff ∷ 0xff ∷ 0xff ∷ 0xff ∷ 0xff ∷ 0xff ∷ 0xff ∷ [];
}

-- The fields in the receive orientation: connected, unconnected, wildcard-bound.
unfoldable pub query_udp : Query → SocketAddr → SocketAddr → Option ℕ
unfolding wildcard family_of
query_udp query local remote =
    let ask = query (family_of local.ip) udp in
    or_else (ask (socket_id remote.port local.ip local.port remote.ip)) (
      or_else (ask (socket_id 0 local.ip local.port local.ip))
        (ask (socket_id 0 (wildcard local.ip) local.port (wildcard local.ip))))

-- The fields in the send orientation: established, listening, wildcard-bound.
unfoldable pub query_tcp : Query → SocketAddr → SocketAddr → Option ℕ
unfolding wildcard family_of
query_tcp query local remote =
    let ask = query (family_of local.ip) tcp in
    or_else (ask (socket_id local.port local.ip remote.port remote.ip)) (
      or_else (ask (socket_id local.port local.ip 0 (wildcard local.ip)))
        (ask (socket_id local.port (wildcard local.ip) 0 (wildcard local.ip))))

unfoldable pub query_socket_inode : Query → SocketAddr → SocketAddr → Bool → Option ℕ
unfolding query_udp query_tcp
query_socket_inode query local remote is_udp =
    if is_udp then query_udp query local remote else query_tcp query local remote

-- `strip_prefix` and `strip_suffix`.
unfoldable pub strip_prefix : Text → Text → Option Text
strip_prefix [] t = some t
strip_prefix (p ∷ ps) [] = none
strip_prefix (p ∷ ps) (c ∷ t) = let rest = strip_prefix ps t in if p == c then rest else none

unfoldable pub strip_last : ℕ → Text → Option Text
strip_last e [] = none
strip_last e (c ∷ []) = if c == e then some [] else none
strip_last e (c ∷ (d ∷ t)) = Option.map (λ r. c ∷ r) (strip_last e (d ∷ t))

unfoldable pub socket_inode_of : Text → Option ℕ
unfolding strip_prefix strip_last parse_uint
socket_inode_of link_target = do
  rest ← strip_prefix (codes "socket:[") link_target
  number ← strip_last b']' rest
  parse_uint (2 ^ 64 - 1) number

-- An entry of `/proc`: its name, if it is text, and its descriptors, if they can be listed, each
-- with the target of its link, if that can be read.
pub record ProcEntry : Type 0 where
  pub name : Option Text
  pub fds : Option (List (Option Text))

abbrev pub Inodes : Type 0
Inodes = List (ℕ × ℕ)

unfoldable pub inode_get : ℕ → Inodes → Option ℕ
inode_get inode [] = none
inode_get inode ((k, pid) ∷ m) =
    let rest = inode_get inode m in if k == inode then some pid else rest

-- `entry(inode).or_insert(pid)`.
unfoldable pub or_insert : ℕ → ℕ → Inodes → Inodes
or_insert inode pid [] = (inode, pid) ∷ []
or_insert inode pid ((k, p) ∷ m) =
    let rest = or_insert inode pid m in if k == inode then (k, p) ∷ m else (k, p) ∷ rest

abbrev pub insert_found : ℕ → Option ℕ → Inodes → Inodes
insert_found pid none m = m
insert_found pid (some inode) m = or_insert inode pid m

unfoldable pub scan_fds : ℕ → List (Option Text) → Inodes → Inodes
unfolding socket_inode_of or_insert
scan_fds pid [] m = m
scan_fds pid (target ∷ fds) m = scan_fds pid fds (insert_found pid (target >>= socket_inode_of) m)

abbrev pub pid_of_name : Option Text → Option ℕ
pid_of_name name = name >>= parse_uint (2 ^ 32 - 1)

abbrev pub scan_entry : Option ℕ → Option (List (Option Text)) → Inodes → Inodes
scan_entry none fds m = m
scan_entry (some pid) none m = m
scan_entry (some pid) (some fds) m = scan_fds pid fds m

unfoldable pub scan_entries : List ProcEntry → Inodes → Inodes
unfolding scan_fds
scan_entries [] m = m
scan_entries (e ∷ es) m = scan_entries es (scan_entry (pid_of_name e.name) e.fds m)

-- `none` where `/proc` cannot be listed.
unfoldable pub scan_socket_inodes : Option (List ProcEntry) → Inodes
unfolding scan_entries
scan_socket_inodes none = []
scan_socket_inodes (some entries) = scan_entries entries []

pub record ProcessCache : Type 0 where
  pub endpoints : Endpoints
  pub inodes : Option Inodes

-- The cache after the call, and the process; `proc` is what a scan would see now.
unfoldable pub inode_to_pid : Option (List ProcEntry) → ProcessCache → ℕ → ProcessCache × Option ℕ
inode_to_pid proc c inode = elim (c.inodes >>= inode_get inode) [
  | some pid ↦ (c, some pid)
  | none ↦
      let map = scan_socket_inodes proc in (record c { inodes = some map }, inode_get inode map)
]

abbrev pub remember_in : ℕ → SocketAddr → Bool → ProcessCache × Option ℕ → ProcessCache × Option ℕ
remember_in now local is_udp (c, pid) =
    (record c { endpoints = remember now (key_of local is_udp) pid c.endpoints }, pid)

unfoldable pub resolve_pid :
    ℕ
    → Query
    → Option (List ProcEntry)
    → ProcessCache
    → SocketAddr
    → SocketAddr
    → Bool
    → ProcessCache × Option ℕ
resolve_pid now query proc c local remote is_udp =
    elim (cached now (key_of local is_udp) c.endpoints) [
      | some pid ↦ (c, some pid)
      | none ↦ elim (query_socket_inode query local remote is_udp) [
        | none ↦ (c, none)
        | some inode ↦ remember_in now local is_udp (inode_to_pid proc c inode)
      ]
    ]

-- What `process_name` reads of a process: `comm`, and the file name of `exe`'s target.
pub record ProcFiles : Type 0 where
  pub comm : ℕ → Option Text
  pub exe_name : ℕ → Option Text

unfoldable pub process_name : ProcFiles → ℕ → Option Text
unfolding trim
process_name files pid = do
  comm ← files.comm pid
  let name = trim comm
  if is_nil name then files.exe_name pid else some name
