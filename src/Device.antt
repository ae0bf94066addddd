-- ===== src/Device.antt =====
-- src/device.rs: the asynchronous packet device. A packet is its bytes. The readiness of a
-- descriptor and the outcome of a system call on it come as rounds, one for each turn of a loop.
pub mod Linux
pub mod Macos
pub mod Windows
mod Tests
use ace_tun.Base.{ℕ, ◌+◌, ◌-◌, Bool, true, false, List, [], ◌∷◌, ◌++◌, ltb, if◌then◌else◌, length}

pub data IoError : Type 0 where
  -- `io::ErrorKind::InvalidInput` and `InvalidData`.
  invalid_input invalid_data : IoError
  os : ℕ → IoError

-- `Poll<io::Result<A>>`; a pending call may have woken its own task.
pub data Poll (A : Type 0) : Type 0 where
  pending : Bool → Poll A
  ready : A → Poll A
  failed : IoError → Poll A

-- One turn: the descriptor is not ready, or polling it failed; or the call would block, failed, or
-- was done.
pub data Round (A : Type 0) : Type 0 where
  not_ready would_block : Round A
  poll_failed io_failed : IoError → Round A
  moved : A → Round A

-- The `loop` of each `poll_read` and `poll_write`, up to what it does with a call that was done. When
-- the rounds end the descriptor is not ready.
unfoldable pub io_loop : {A : Type 0} → List (Round A) → Poll A
io_loop [] = pending false
io_loop (not_ready ∷ rounds) = pending false
io_loop (would_block ∷ rounds) = io_loop rounds
io_loop (poll_failed e ∷ rounds) = failed e
io_loop (io_failed e ∷ rounds) = failed e
io_loop (moved a ∷ rounds) = ready a

-- `ReadBuf`: what is filled, and the room behind it.
pub record ReadBuf : Type 0 where
  pub filled : List ℕ
  pub remaining : ℕ

abbrev pub put_slice : ReadBuf → List ℕ → ReadBuf
put_slice buf packet = record {
  filled = buf.filled ++ packet;
  remaining = buf.remaining - length packet;
}

abbrev pub Read : Type 0
Read = Poll (Unit {0}) × ReadBuf

-- A packet that the buffer cannot hold is dropped, and the task woken.
unfoldable pub deliver : ReadBuf → List ℕ → Read
deliver buf packet =
    if ltb buf.remaining (length packet)
    then (pending true, buf)
    else (ready tt, put_slice buf packet)

abbrev pub max_packet : ℕ
max_packet = 65_535
