-- ===== src/Platform/Linux/Process/Attribution.antt =====
-- src/platform/linux/process.rs: `resolve_pid` over the kernel's replies.
use ace_tun.Base.{ℕ, Bool, Option, none, some, List, [], ◌∷◌, ◌≡◌, ◌⊎◌, if◌then◌else◌}
use ace_tun.Addr.{IpAddr}
use ace_tun.Platform.Linux.Netlink.{Message, Payload, inner, on_inode}
use ace_tun.Platform.Linux.Process.{Protocol, tcp, udp, SocketId, socket_id, wildcard}
use ace_tun.Platform.Linux.Process.Diag.{Diag, DiagMessage}

-- The port of the socket that a request asks for: sock_diag reads a request about UDP in the
-- orientation of a packet that arrives.
abbrev pub port_asked : Protocol → SocketId → ℕ
port_asked tcp s = s.source_port
port_asked udp s = s.destination_port

-- What is documented of the kernel: a socket of sock_diag answers its one request with one datagram
-- at most, and an inode in it is that of a socket which receives what is for the address and port
-- asked for.
abbrev pub Answers : (Protocol → IpAddr → ℕ → ℕ → Type 0) → Diag → DiagMessage → Type 0
Answers Receives k m =
    (k.replies m ≡ [])
    ⊎ ((d : List ℕ) × (k.replies m ≡ d ∷ [])
        × ((r : Message ℕ) (inode : ℕ)
            → k.deserialize d ≡ some r
            → r.payload ≡ inner inode
            → Receives m.request.protocol m.request.socket_id.source_address
                (port_asked m.request.protocol m.request.socket_id) inode))

abbrev after : Bool → Payload ℕ → Option ℕ
after same payload = if same then on_inode payload none else none

module _ (Receives : Protocol → IpAddr → ℕ → ℕ → Type 0) (k : Diag)
    (kernel : (m : DiagMessage) → Answers Receives k m) where
  abbrev ReceivesOn : Protocol → IpAddr → ℕ → ℕ → Type 0
  ReceivesOn protocol ip port inode =
      Receives protocol ip port inode ⊎ Receives protocol (wildcard ip) port inode

  abbrev protocol_of : Bool → Protocol
  protocol_of is_udp = if is_udp then udp else tcp
