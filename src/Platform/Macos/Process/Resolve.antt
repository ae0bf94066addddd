-- ===== src/Platform/Macos/Process/Resolve.antt =====
-- src/platform/macos/process.rs: `resolve_pid` and `process_name`. What the kernel answers is a
-- parameter.
use mathlib.Core.Option
use ace_tun.Base.{
  ℕ, Bool, Option, none, some, List, [], ◌∷◌, ◌==◌, if◌then◌else◌, ◌>>=◌, take, is_nil,
}
use ace_tun.Text.{Text, trim}
use ace_tun.Text.Utf8.{from_utf8}
use ace_tun.Addr.{SocketAddr}
use ace_tun.Platform.Process.{Endpoints, key_of, cached, remember}
use ace_tun.Platform.Macos.Process.{scan_pcblist}

-- The answers of `sysctlbyname` for a protocol: the size of its table, `none` for an error; and for
-- a buffer of that size its contents after the call and the length that the kernel reports.
-- `proc_pidinfo` fills a process's short name, or fails.
pub record Sysctl : Type 0 where
  pub table_size : Bool → Option ℕ
  pub fetch_table : Bool → ℕ → Option (List ℕ × ℕ)
  pub short_name : ℕ → Option (List ℕ)
  pub effective_uid : ℕ

unfoldable pub is_privileged : Sysctl → Bool
is_privileged k = k.effective_uid == 0

unfoldable pub pcblist_table : Sysctl → Bool → Option (List ℕ)
pcblist_table k is_udp = do
  length ← k.table_size is_udp
  if length == 0 then none else Option.map (λ t. take t.1 t.0) (k.fetch_table is_udp length)

-- What follows a miss: the cache after it, and the answer. `none` is a fault of the scan.
unfoldable pub resolve_anew :
    ℕ → Sysctl → Endpoints → SocketAddr → SocketAddr → Bool → Option (Endpoints × Option ℕ)
resolve_anew now k cache local remote is_udp = elim (pcblist_table k is_udp) [
  | none ↦ some (cache, none)
  | some table ↦ do
    pid ← scan_pcblist table local remote
    some (remember now (key_of local is_udp) pid cache, pid)
]

unfoldable pub resolve_pid :
    ℕ → Sysctl → Endpoints → SocketAddr → SocketAddr → Bool → Option (Endpoints × Option ℕ)
resolve_pid now k cache local remote is_udp = elim (cached now (key_of local is_udp) cache) [
  | some pid ↦ some (cache, some pid)
  | none ↦ resolve_anew now k cache local remote is_udp
]

-- The bytes before the first zero.
unfoldable pub before_zero : List ℕ → List ℕ
before_zero [] = []
before_zero (b ∷ bs) = let rest = b ∷ before_zero bs in if b == 0 then [] else rest

abbrev pub non_empty : Text → Option Text
non_empty t = if is_nil t then none else some t

unfoldable pub process_name : Sysctl → ℕ → Option Text
unfolding before_zero trim from_utf8
process_name k pid = do
  bytes ← k.short_name pid
  name ← from_utf8 (before_zero bytes)
  non_empty (trim name)
