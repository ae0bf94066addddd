-- ===== src/Device/Macos.antt =====
-- src/device.rs: the macOS device, whose datagrams begin with the address family in four bytes.
pub mod Framing
use ace_tun.Base.{
  ℕ, ◌+◌, ◌-◌, ◌/◌, Option, none, some, List, [], ◌∷◌, ◌++◌, ltb, ◌==◌, if◌then◌else◌, length, take,
  drop, is_nil,
}
use ace_tun.Device.{
  IoError, invalid_input, invalid_data, Poll, pending, ready, failed, Round, io_loop, ReadBuf, Read,
  deliver, max_packet,
}

abbrev pub af_header_len : ℕ
af_header_len = 4

-- `AF_INET` and `AF_INET6`.
abbrev pub af_inet : ℕ
af_inet = 2

abbrev pub af_inet6 : ℕ
af_inet6 = 30

-- The scratch buffer after a `read`, `&packet[..received]`, without its header.
unfoldable pub strip_header : ReadBuf → List ℕ → Read
unfolding deliver
strip_header buf received =
    if ltb (length received) af_header_len
    then (failed invalid_data, buf)
    else deliver buf (drop af_header_len received)

unfoldable pub finish_read : ReadBuf → Poll (List ℕ) → Read
unfolding strip_header
finish_read buf (pending woken) = (pending woken, buf)
finish_read buf (failed e) = (failed e, buf)
finish_read buf (ready datagram) = strip_header buf (take (af_header_len + max_packet) datagram)

unfoldable pub poll_read : List (Round (List ℕ)) → ReadBuf → Read
unfolding finish_read
poll_read rounds buf = finish_read buf (io_loop rounds)

-- `to_be_bytes` of the family, which is below 256.
abbrev pub header_of : ℕ → List ℕ
header_of family = 0 ∷ 0 ∷ 0 ∷ family ∷ []

-- The family, by the version in the packet's first four bits.
unfoldable pub family_of : List ℕ → Option ℕ
family_of [] = none
family_of (b ∷ bs) =
    if b / 16 == 4 then some af_inet else if b / 16 == 6 then some af_inet6 else none

-- The packet's length, from the bytes that the kernel accepted, and the datagram given to it.
abbrev pub sent : List ℕ → Poll ℕ → Poll ℕ × List (List ℕ)
sent datagram (ready written) = (ready (written - af_header_len), datagram ∷ [])
sent datagram (pending woken) = (pending woken, [])
sent datagram (failed e) = (failed e, [])

unfoldable pub write_datagram : List (Round ℕ) → List ℕ → Option ℕ → Poll ℕ × List (List ℕ)
write_datagram rounds buf none = (failed invalid_data, [])
write_datagram rounds buf (some family) = sent (header_of family ++ buf) (io_loop rounds)

unfoldable pub poll_write : List (Round ℕ) → List ℕ → Poll ℕ × List (List ℕ)
unfolding write_datagram
poll_write rounds buf =
    if is_nil buf
    then (ready 0, [])
    else if ltb max_packet (length buf)
    then (failed invalid_input, [])
    else if ltb (length buf) af_header_len
    then (failed invalid_data, [])
    else write_datagram rounds buf (family_of buf)
