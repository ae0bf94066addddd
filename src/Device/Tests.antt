-- ===== src/Device/Tests.antt =====
-- The device on concrete packets, and its theorems applied to them.
use ace_tun.Base.{ℕ, ◌+◌, true, none, List, [], ◌∷◌, ◌≡◌, refl, arith, inl, length}
use ace_tun.Device.{
  would_block, moved, pending, ready, failed, invalid_data, ReadBuf, put_slice, io_loop,
}
use ace_tun.Device.Linux
use ace_tun.Device.Macos
use ace_tun.Device.Macos.{header_of}
use ace_tun.Device.Macos.Framing.{poll_write-poll_read, family_number}
use ace_tun.Device.Windows.Reader.{
  Reader, Reach, start, arrive, receive, send, take, IsOrdered, Reach-IsOrdered,
}

abbrev packet : List ℕ
packet = 0x45 ∷ 0 ∷ 0 ∷ 4 ∷ []

abbrev room : ℕ → ReadBuf
room n = record { filled = []; remaining = n }

-- A packet that is larger than the buffer is dropped, and the task is woken.
drops_large_packet :
    Linux.poll_read (would_block ∷ moved packet ∷ []) (room 3) ≡ (pending true, room 3)
unfolding Linux.poll_read io_loop
drops_large_packet = refl

refuses_other_versions :
    Macos.poll_write (moved 8 ∷ []) (0x15 ∷ 0 ∷ 0 ∷ 4 ∷ []) ≡ (failed invalid_data, [])
unfolding Macos.poll_write Macos.family_of
refuses_other_versions = refl

blocked_once : io_loop (would_block ∷ moved 8 ∷ []) ≡ ready (length packet + 4)
unfolding io_loop
blocked_once = refl

one_datagram :
    io_loop (would_block ∷ moved (0 ∷ 0 ∷ 0 ∷ 2 ∷ packet) ∷ [])
    ≡ ready (0 ∷ 0 ∷ 0 ∷ family_number packet ∷ packet)
unfolding io_loop
one_datagram = refl

poll_write-poll_read_example :
    (Macos.poll_write (would_block ∷ moved 8 ∷ []) packet
      ≡ (ready (length packet), (0 ∷ 0 ∷ 0 ∷ family_number packet ∷ packet) ∷ []))
    × (Macos.poll_read (would_block ∷ moved (0 ∷ 0 ∷ 0 ∷ 2 ∷ packet) ∷ []) (room 1500)
        ≡ (ready tt, put_slice (room 1500) packet))
poll_write-poll_read_example =
    poll_write-poll_read packet (room 1500) (would_block ∷ moved 8 ∷ [])
      (would_block ∷ moved (0 ∷ 0 ∷ 0 ∷ 2 ∷ packet) ∷ []) (inl (omega arith)) (omega arith)
      (omega arith) (omega arith) blocked_once one_datagram

abbrev other : List ℕ
other = 0x60 ∷ []

abbrev one_behind : Reader
one_behind = record {
  ring = other ∷ [];
  parked = none;
  queue = [];
  taken = packet ∷ [];
  running = true;
  listening = true;
}

-- Two packets arrive, and the first is handed out.
handed_out : Reach (packet ∷ other ∷ []) one_behind
handed_out =
    take packet
      (send packet (receive packet (arrive other (arrive packet start)) refl refl refl) refl refl
        refl (omega arith))
      refl refl

Reach-IsOrdered_example : IsOrdered (packet ∷ other ∷ []) one_behind
Reach-IsOrdered_example = Reach-IsOrdered handed_out
