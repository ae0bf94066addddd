-- ===== src/Device/Linux.antt =====
-- src/device.rs: the Linux device, whose descriptor carries bare packets.
use ace_tun.Base.{ℕ, List, [], ◌∷◌, ltb, if◌then◌else◌, length, take, is_nil}
use ace_tun.Device.{
  invalid_input, Poll, pending, ready, failed, Round, io_loop, ReadBuf, Read, deliver, max_packet,
}

-- `read` fills the scratch buffer with the packet, and discards what the buffer cannot hold.
unfoldable pub finish_read : ReadBuf → Poll (List ℕ) → Read
unfolding deliver
finish_read buf (pending woken) = (pending woken, buf)
finish_read buf (failed e) = (failed e, buf)
finish_read buf (ready packet) = deliver buf (take max_packet packet)

unfoldable pub poll_read : List (Round (List ℕ)) → ReadBuf → Read
unfolding finish_read
poll_read rounds buf = finish_read buf (io_loop rounds)

-- A round of a write carries the number of bytes that the kernel accepted. The packets given to the
-- kernel, if the call was done.
abbrev pub sent : List ℕ → Poll ℕ → Poll ℕ × List (List ℕ)
sent datagram (ready written) = (ready written, datagram ∷ [])
sent datagram (pending woken) = (pending woken, [])
sent datagram (failed e) = (failed e, [])

unfoldable pub poll_write : List (Round ℕ) → List ℕ → Poll ℕ × List (List ℕ)
poll_write rounds buf =
    if is_nil buf
    then (ready 0, [])
    else if ltb max_packet (length buf)
    then (failed invalid_input, [])
    else sent buf (io_loop rounds)
