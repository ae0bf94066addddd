-- ===== src/Platform/Windows/Process.antt =====
-- src/platform/windows/process.rs: the process of a flow by the owner tables of the IP Helper, and
-- the name of its executable. The tables and the paths are the system's answers.
pub mod Rows
use mathlib.Core.Option
use ace_tun.Base.{
  ℕ, ◌+◌, ◌*◌, ◌/◌, ◌%◌, bit_and, Bool, true, false, ◌&&◌, ◌||◌, Option, none, some, List, [], ◌∷◌,
  ◌==◌, if◌then◌else◌, ◌>>=◌, or_else, find?,
}
use ace_tun.Base.Words.{from_le}
use ace_tun.Text.{Text, text_eq}
use ace_tun.Addr.{IpAddr, v4, v6, octets}

-- `swap_bytes` of the low 16 bits.
unfoldable pub table_port_to_host : ℕ → ℕ
table_port_to_host field = bit_and field 0xFFFF % 256 * 256 + bit_and field 0xFFFF / 256

unfoldable pub ipv4_table_key : ℕ → ℕ
unfolding from_le octets
ipv4_table_key ip = from_le (octets 4 ip)

-- A row: the address as the table stores it, a word for IPv4 and sixteen bytes for IPv6.
pub record Row (A : Type 0) : Type 0 where
  pub local_addr : A
  pub local_port : ℕ
  pub owning_pid : ℕ

-- The codes of the two calls, and the rows that the second one filled in.
pub record TableCalls (A : Type 0) : Type 0 where
  pub sizing : ℕ
  pub filling : ℕ
  pub rows : List (Row A)

abbrev pub error_insufficient_buffer : ℕ
error_insufficient_buffer = 122

unfoldable pub fetch_table : {A : Type 0} → TableCalls A → Option (List (Row A))
fetch_table calls =
    if calls.sizing == error_insufficient_buffer
    then (if calls.filling == 0 then some calls.rows else none)
    else none

-- The `for` loop over the rows, for a test of the address.
unfoldable pub first_row : {A : Type 0} → (A → Bool) → ℕ → List (Row A) → Option ℕ
unfolding table_port_to_host
first_row is port [] = none
first_row is port (row ∷ rows) =
    let rest = first_row is port rows in
    if is row.local_addr && table_port_to_host row.local_port == port
    then some row.owning_pid
    else rest

abbrev pub any_v6 : List ℕ
any_v6 = octets 16 0

module _ (port : ℕ) where
  unfoldable pub resolve_pid_tcp_v4 : TableCalls ℕ → ℕ → Option ℕ
  resolve_pid_tcp_v4 calls ip = fetch_table calls >>= first_row (λ a. a == ipv4_table_key ip) port

  -- An exact match first, then a socket that is bound to 0.0.0.0.
  unfoldable pub resolve_pid_udp_v4 : TableCalls ℕ → ℕ → Option ℕ
  resolve_pid_udp_v4 calls ip = do
    rows ← fetch_table calls
    or_else (first_row (λ a. a == ipv4_table_key ip) port rows) (first_row (λ a. a == 0) port rows)

  unfoldable pub resolve_pid_tcp_v6 : TableCalls (List ℕ) → ℕ → Option ℕ
  resolve_pid_tcp_v6 calls ip = fetch_table calls >>= first_row (λ a. text_eq a (octets 16 ip)) port

  -- An exact match or a socket that is bound to ::, whichever comes first.
  unfoldable pub resolve_pid_udp_v6 : TableCalls (List ℕ) → ℕ → Option ℕ
  resolve_pid_udp_v6 calls ip =
      fetch_table calls >>= first_row (λ a. text_eq a (octets 16 ip) || text_eq a any_v6) port

-- The four tables of the system.
pub record Tables : Type 0 where
  pub tcp_v4 : TableCalls ℕ
  pub udp_v4 : TableCalls ℕ
  pub tcp_v6 : TableCalls (List ℕ)
  pub udp_v6 : TableCalls (List ℕ)

unfoldable pub resolve_pid : Tables → IpAddr → ℕ → Bool → Option ℕ
resolve_pid t (v4 ip) port true =
    or_else (resolve_pid_udp_v4 port t.udp_v4 ip) (resolve_pid_tcp_v4 port t.tcp_v4 ip)
resolve_pid t (v4 ip) port false = resolve_pid_tcp_v4 port t.tcp_v4 ip
resolve_pid t (v6 ip) port true =
    or_else (resolve_pid_udp_v6 port t.udp_v6 ip) (resolve_pid_tcp_v6 port t.tcp_v6 ip)
resolve_pid t (v6 ip) port false = resolve_pid_tcp_v6 port t.tcp_v6 ip

-- The path that the system reports, `none` where a call fails or the path is empty.
unfoldable pub process_path : (ℕ → Option Text) → ℕ → Option Text
process_path image_name pid = if pid == 0 then none else image_name pid

-- The text behind the last separator.
unfoldable pub behind_last : Text → Text → Text
behind_last found [] = found
behind_last found (c ∷ t) = behind_last (if c == b'\\' || c == b'/' then t else found) t

unfoldable pub file_name : Text → Text
unfolding behind_last
file_name path = behind_last path path

unfoldable pub process_name : (ℕ → Option Text) → ℕ → Option Text
unfolding process_path file_name
process_name image_name pid = Option.map file_name (process_path image_name pid)
