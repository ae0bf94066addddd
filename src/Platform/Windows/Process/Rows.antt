-- ===== src/Platform/Windows/Process/Rows.antt =====
-- src/platform/windows/process.rs: the search over the rows of the UDP table.
use ace_tun.Base.{
  ℕ, ◌+◌, ◌*◌, ◌/◌, ◌%◌, ◌^◌, ◌<◌, bit_and, Bool, ◌&&◌, Option, none, some, List, [], ◌∷◌, map, ◌≡◌,
  refl, ap, arith, ◌↔◌, ==_congr, ◌==◌, or_else, find?, All,
}
use ace_tun.Base.Words.{from_le}
use ace_tun.Base.Bits.{bit_and_ones, pow2}
use ace_tun.Addr.{octets}
use ace_tun.Platform.Windows.Process.{
  Row, table_port_to_host, ipv4_table_key, first_row, fetch_table, resolve_pid_udp_v4,
}

-- A socket of the system's table.
pub record Socket : Type 0 where
  pub addr : ℕ
  pub port : ℕ
  pub pid : ℕ

abbrev pub IsSocket : Socket → Type 0
IsSocket s = (s.addr < 2 ^ 32) × (s.port < 65536)

-- The row that the system writes for it: the address in memory order, and the port in network order.
abbrev pub row_of : Socket → Row ℕ
row_of s = record {
  local_addr = from_le (octets 4 s.addr);
  local_port = s.port % 256 * 256 + s.port / 256;
  owning_pid = s.pid;
}

in_word : (x : ℕ) → x < 65536 → x < pow2 16
unfolding pow2
in_word x h = h

low_word : (x : ℕ) → x < 65536 → bit_and x 0xFFFF ≡ x
unfolding pow2
low_word x h = bit_and_ones 16 x (in_word x h)

port_of_row : (p : ℕ) → p < 65536 → table_port_to_host (p % 256 * 256 + p / 256) ≡ p
unfolding table_port_to_host
port_of_row p h = let low = low_word (p % 256 * 256 + p / 256) (omega arith) in rw low (omega arith)

key_inj : (a b : ℕ) → a < 2 ^ 32 → b < 2 ^ 32 → from_le (octets 4 a) ≡ from_le (octets 4 b) → a ≡ b
unfolding from_le octets
key_inj a b ha hb h = omega arith

key_zero : (a : ℕ) → a < 2 ^ 32 → (from_le (octets 4 a) ≡ 0) ↔ (a ≡ 0)
unfolding from_le octets
key_zero a h = (λ e. omega arith, λ e. omega arith)

zero_test : (a : ℕ) → a < 2 ^ 32 → (from_le (octets 4 a) == 0) ≡ (a == 0)
zero_test a h = ==_congr _ 0 a 0 (key_zero a h).0 (key_zero a h).1

key_test :
    (a b : ℕ) → a < 2 ^ 32 → b < 2 ^ 32 → (from_le (octets 4 a) == ipv4_table_key b) ≡ (a == b)
unfolding ipv4_table_key
key_test a b ha hb =
    ==_congr (from_le (octets 4 a)) (ipv4_table_key b) a b (key_inj a b ha hb)
      (ap (λ n. from_le (octets 4 n)))

abbrev pub found_pid : Option Socket → Option ℕ
found_pid none = none
found_pid (some s) = some s.pid

first_row-rows :
    (is : ℕ → Bool) (want : ℕ → Bool) (port : ℕ) (ss : List Socket)
    → ((a : ℕ) → a < 2 ^ 32 → is (from_le (octets 4 a)) ≡ want a)
    → All IsSocket ss
    → first_row is port (map row_of ss) ≡ found_pid (find? (λ s. want s.addr && s.port == port) ss)
unfolding first_row
first_row-rows is want port [] same w = refl
first_row-rows is want port (s ∷ ss) same (ws, w) =
    rw (same s.addr ws.0, port_of_row s.port ws.1, first_row-rows is want port ss same w)
      (ground arith)

-- When both calls for the table succeed, `resolve_pid_udp_v4` gives the process of the first socket
-- in it on exactly the local address and port, or else of the first one that is bound to 0.0.0.0 on
-- that port, or else nothing. The rows hold addresses and ports as the system stores them.
pub resolve_pid_udp_v4-rows :
    (ss : List Socket) (ip port : ℕ)
    → ip < 2 ^ 32
    → All IsSocket ss
    → resolve_pid_udp_v4 port (record { sizing = 122; filling = 0; rows = map row_of ss }) ip
      ≡ or_else
          (found_pid (find? (λ s. s.addr == ip && s.port == port) ss))
          (found_pid (find? (λ s. s.addr == 0 && s.port == port) ss))
unfolding resolve_pid_udp_v4 fetch_table
resolve_pid_udp_v4-rows ss ip port h w = rw (
  first_row-rows (λ a. a == ipv4_table_key ip) (λ a. a == ip) port ss (λ a ha. key_test a ip ha h)
      w,
  first_row-rows (λ a. a == 0) (λ a. a == 0) port ss (λ a ha. zero_test a ha) w,
)
