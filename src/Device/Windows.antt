-- ===== src/Device/Windows.antt =====
-- src/device.rs: the Windows device: a reader thread, a bounded queue, and the poll functions.
pub mod Reader
use ace_tun.Base.{
  ℕ, Bool, true, false, Option, none, some, List, [], ◌∷◌, ltb, ◌==◌, if◌then◌else◌, length,
}
use ace_tun.Device.{
  IoError, invalid_input, Poll, pending, ready, failed, ReadBuf, Read, deliver, max_packet,
}

abbrev pub read_queue_depth : ℕ
read_queue_depth = 1024

-- `poll_recv`: a packet, the end of the channel, or neither yet.
pub data Received : Type 0 where
  packet : List ℕ → Received
  closed waiting : Received

unfoldable pub poll_read : Received → ReadBuf → Read
unfolding deliver
poll_read (packet p) buf = deliver buf p
poll_read closed buf = (ready tt, buf)
poll_read waiting buf = (pending false, buf)

-- Whether the send ring has room for a packet. The result, and the packets sent.
unfoldable pub poll_write : Bool → List ℕ → Poll ℕ × List (List ℕ)
poll_write has_room buf =
    if ltb max_packet (length buf)
    then (failed invalid_input, [])
    else if length buf == 0
    then (ready 0, [])
    else (ready (length buf), (if has_room then buf ∷ [] else []))
