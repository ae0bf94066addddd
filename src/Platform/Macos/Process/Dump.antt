-- ===== src/Platform/Macos/Process/Dump.antt =====
-- src/platform/macos/process.rs: a table of records with the layout that the file gives, whatever
-- their lengths and the bytes that it does not read, and the search that the walk performs on it.
use ace_tun.Base.{
  ℕ, zero, suc, ◌/◌, ◌%◌, ◌^◌, ◌≤◌, ◌<◌, Bool, not, ◌&&◌, Option, some, List, [], ◌∷◌, ◌++◌, ◌≡◌,
  ltb, ◌==◌, ◌+◌, bit_and, length, find?, or_else,
}
use ace_tun.Addr.{IpAddr, v4, v6, SocketAddr, IsValid, octets, is_ipv6, is_unspecified, ip_eq}
use ace_tun.Platform.Macos.Process.{read_u32_le, same_family}

-- What the parser does not look at: the bytes of each gap between the fields that it reads, by the
-- number of the gap and the position in it, and the bytes behind them, any number of them.
pub record Rest : Type 0 where
  pub gaps : ℕ → ℕ → ℕ
  pub inpcb_tail : List ℕ
  pub socket_tail : List ℕ

-- A socket of the kernel's table.
pub record Socket : Type 0 where
  pub pid : ℕ
  pub local_addr : IpAddr
  pub local_port : ℕ
  pub foreign_addr : IpAddr
  pub foreign_port : ℕ
  pub vflag : ℕ
  pub rest : Rest

abbrev pub bytes : ℕ → (ℕ → ℕ) → List ℕ
bytes zero f = []
bytes (suc n) f = f zero ∷ bytes n (λ i. f (suc i))

-- `to_le_bytes` of a 32-bit word.
abbrev pub le_bytes : ℕ → List ℕ
le_bytes n = n % 256 ∷ n / 256 % 256 ∷ n / 65536 % 256 ∷ n / 16777216 % 256 ∷ []

-- A v4 address fills the last four bytes of its slot.
unfoldable pub address_slot : (ℕ → ℕ) → IpAddr → List ℕ
unfolding octets
address_slot gap (v4 a) = bytes 12 gap ++ octets 4 a
address_slot gap (v6 a) = octets 16 a

-- The bytes of an `xinpcb_n` and of an `xsocket_n` up to the last field that is read, with the length
-- of the record first.
unfoldable pub inpcb_front : Socket → ℕ → List ℕ
unfolding address_slot
inpcb_front s len =
    le_bytes len
    ++ (bytes 12 (s.rest.gaps 0)
        ++ (octets 2 s.foreign_port
            ++ (octets 2 s.local_port
                ++ (bytes 24 (s.rest.gaps 1)
                    ++ (s.vflag
                        ∷ (bytes 3 (s.rest.gaps 2)
                            ++ (address_slot (s.rest.gaps 3) s.foreign_addr
                                ++ address_slot (s.rest.gaps 4) s.local_addr)))))))

unfoldable pub socket_front : Socket → ℕ → List ℕ
socket_front s len = le_bytes len ++ (bytes 64 (s.rest.gaps 5) ++ le_bytes s.pid)

unfoldable pub inpcb_of : Socket → List ℕ
unfolding inpcb_front
inpcb_of s = inpcb_front s (80 + length s.rest.inpcb_tail) ++ s.rest.inpcb_tail

unfoldable pub socket_of : Socket → List ℕ
unfolding socket_front
socket_of s = socket_front s (72 + length s.rest.socket_tail) ++ s.rest.socket_tail

unfoldable pub record_pair : Socket → List ℕ
unfolding inpcb_of socket_of
record_pair s = inpcb_of s ++ socket_of s

unfoldable pub records : List Socket → List ℕ
unfolding record_pair
records [] = []
records (s ∷ ss) = record_pair s ++ records ss

-- The values that the fields of a socket hold: both addresses of one family, which is v6 exactly if the
-- flags have `INP_IPV6`, 16-bit ports, an `i32` that is no error, and records whose lengths have 32
-- bits.
pub record IsSocket (s : Socket) : Type 0 where
  pub family : is_ipv6 s.local_addr ≡ is_ipv6 s.foreign_addr
  pub local_valid : IsValid s.local_addr
  pub foreign_valid : IsValid s.foreign_addr
  pub local_port_small : s.local_port < 65536
  pub foreign_port_small : s.foreign_port < 65536
  pub pid_small : s.pid < 2 ^ 31
  pub vflag_family : not (bit_and s.vflag 0x2 == 0) ≡ is_ipv6 s.local_addr
  pub inpcb_short : 80 + length s.rest.inpcb_tail < 2 ^ 32
  pub socket_short : 72 + length s.rest.socket_tail < 2 ^ 32

-- A header that declares its own length.
abbrev pub IsHeader : List ℕ → Type 0
IsHeader h = (read_u32_le h 0 ≡ some (length h)) × (24 ≤ length h)

module _ (local remote : SocketAddr) where
  -- An owned socket of the flow's family on the flow's local port.
  unfoldable pub on_port : Socket → Bool
  unfolding is_ipv6
  on_port s =
      (ltb 0 s.pid && same_family (is_ipv6 s.local_addr) (is_ipv6 local.ip))
      && s.local_port == local.port

  -- The connection that the flow belongs to.
  unfoldable pub is_connection : Socket → Bool
  unfolding on_port ip_eq is_unspecified
  is_connection s =
      on_port s
      && ((ip_eq s.local_addr local.ip
            && (ip_eq s.foreign_addr remote.ip && s.foreign_port == remote.port))
          && (not (s.foreign_port == 0) && not (is_unspecified s.foreign_addr)))

  -- A socket on the flow's local address, whatever its peer.
  unfoldable pub is_bound : Socket → Bool
  unfolding on_port ip_eq is_unspecified
  is_bound s = on_port s && (ip_eq s.local_addr local.ip && not (is_unspecified s.local_addr))

  unfoldable pub is_wildcard : Socket → Bool
  unfolding on_port is_unspecified
  is_wildcard s = on_port s && is_unspecified s.local_addr

  -- The owner: the first connection, or else the first bound socket, or else the first wildcard.
  unfoldable pub owner : List Socket → Option Socket
  owner ss = or_else (find? is_connection ss) (or_else (find? is_bound ss) (find? is_wildcard ss))
