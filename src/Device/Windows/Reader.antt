-- ===== src/Device/Windows/Reader.antt =====
-- src/device.rs: the reader thread and its channel, step by step.
use ace_tun.Base.{
  ℕ, ◌≤◌, ◌<◌, Bool, true, false, Option, none, some, List, [], ◌∷◌, ◌++◌, ◌≡◌, refl, ap, ◌∙◌,
  arith, length, length-append, append_assoc,
}
use ace_tun.Device.Windows.{read_queue_depth}

abbrev Packet : Type 0
Packet = List ℕ

-- The session's ring, the packet that the thread is sending, the channel, and what `poll_recv` has
-- handed out; `running` is the thread, `listening` the receiver.
pub record Reader : Type 0 where
  pub ring : List Packet
  pub parked : Option Packet
  pub queue : List Packet
  pub taken : List Packet
  pub running : Bool
  pub listening : Bool

abbrev pub started : Reader
started = record {
  ring = [];
  parked = none;
  queue = [];
  taken = [];
  running = true;
  listening = true;
}

-- The packets that the driver delivered are recorded with a state.
pub data Reach : List Packet → Reader → Type 0 where
  start : Reach [] started
  -- The driver adds a packet to the ring.
  arrive :
      {ps : List Packet} {r : Reader} (p : Packet)
      → Reach ps r
      → Reach (ps ++ p ∷ []) (record r { ring = r.ring ++ p ∷ [] })
  -- `receive_blocking` returns a packet.
  receive :
      {ps rest : List Packet} {r : Reader} (p : Packet)
      → Reach ps r
      → r.running ≡ true
      → r.parked ≡ none
      → r.ring ≡ p ∷ rest
      → Reach ps (record r { ring = rest; parked = some p })
  -- `receive_blocking` fails: the session was shut down.
  stop :
      {ps : List Packet} {r : Reader}
      → Reach ps r
      → r.running ≡ true
      → r.parked ≡ none
      → Reach ps (record r { running = false })
  -- `blocking_send` finds room in the channel.
  send :
      {ps : List Packet} {r : Reader} (p : Packet)
      → Reach ps r
      → r.running ≡ true
      → r.listening ≡ true
      → r.parked ≡ some p
      → length r.queue < read_queue_depth
      → Reach ps (record r { parked = none; queue = r.queue ++ p ∷ [] })
  -- `poll_recv` hands out a packet.
  take :
      {ps rest : List Packet} {r : Reader} (p : Packet)
      → Reach ps r
      → r.listening ≡ true
      → r.queue ≡ p ∷ rest
      → Reach ps (record r { queue = rest; taken = r.taken ++ p ∷ [] })
  -- The device is dropped, and the channel with it.
  hang_up :
      {ps : List Packet} {r : Reader}
      → Reach ps r
      → Reach ps (record r { queue = []; listening = false })
  -- `blocking_send` fails: the receiver is gone.
  abandon :
      {ps : List Packet} {r : Reader}
      → Reach ps r
      → r.running ≡ true
      → r.listening ≡ false
      → Reach ps (record r { parked = none; running = false })

abbrev pub parked_list : Option Packet → List Packet
parked_list none = []
parked_list (some p) = p ∷ []

-- While the device lives, every packet is in one place, in the order of its arrival; and the
-- channel keeps its bound.
pub record IsOrdered (ps : List Packet) (r : Reader) : Type 0 where
  pub whole : r.listening ≡ true → r.taken ++ (r.queue ++ (parked_list r.parked ++ r.ring)) ≡ ps
  pub bounded : length r.queue ≤ read_queue_depth

arrive_order :
    (taken queue parked ring ps : List Packet) (p : Packet)
    → taken ++ (queue ++ (parked ++ ring)) ≡ ps
    → taken ++ (queue ++ (parked ++ (ring ++ p ∷ []))) ≡ ps ++ p ∷ []
arrive_order taken queue parked ring ps p h =
    rw (← h, append_assoc taken, append_assoc queue, append_assoc parked)

receive_order :
    (taken queue rest ring ps : List Packet) (parked : Option Packet) (p : Packet)
    → parked ≡ none
    → ring ≡ p ∷ rest
    → taken ++ (queue ++ (parked_list parked ++ ring)) ≡ ps
    → taken ++ (queue ++ p ∷ rest) ≡ ps
receive_order taken queue rest ring ps parked p idle next h = rw (idle, next) at h

send_order :
    (taken queue ring ps : List Packet) (parked : Option Packet) (p : Packet)
    → parked ≡ some p
    → taken ++ (queue ++ (parked_list parked ++ ring)) ≡ ps
    → taken ++ ((queue ++ p ∷ []) ++ ring) ≡ ps
send_order taken queue ring ps parked p full h =
    ap (λ (q : List Packet). taken ++ q) (append_assoc queue (p ∷ []) ring) ∙ (rw full at h)

take_order :
    (taken queue rest tail ps : List Packet) (p : Packet)
    → queue ≡ p ∷ rest
    → taken ++ (queue ++ tail) ≡ ps
    → (taken ++ p ∷ []) ++ (rest ++ tail) ≡ ps
take_order taken queue rest tail ps p next h =
    append_assoc taken (p ∷ []) (rest ++ tail) ∙ (rw next at h)

-- In every state that the reader can reach while the device lives, the packets that `poll_recv`
-- handed out, then those in the channel, then the one being sent, then those in the ring are the
-- packets that the driver delivered, in their order, none lost and none twice; and the channel never
-- holds more than 1024.
pub Reach-IsOrdered : {ps : List Packet} {r : Reader} → Reach ps r → IsOrdered ps r
Reach-IsOrdered start = record { whole = λ _. refl; bounded = omega arith }
Reach-IsOrdered (arrive {ps = ps} {r = r} p reach) =
    let ih = Reach-IsOrdered reach in
    record {
      whole = λ on. arrive_order r.taken r.queue (parked_list r.parked) r.ring ps p (ih.whole on);
      bounded = ih.bounded;
    }
Reach-IsOrdered (receive {ps = ps} {rest = rest} {r = r} p reach running idle next) =
    let ih = Reach-IsOrdered reach in
    record {
      whole = λ on. receive_order r.taken r.queue rest r.ring ps r.parked p idle next (ih.whole on);
      bounded = ih.bounded;
    }
Reach-IsOrdered (stop reach running idle) =
    let ih = Reach-IsOrdered reach in record { whole = ih.whole; bounded = ih.bounded }
Reach-IsOrdered (send {ps = ps} {r = r} p reach running alive full room) =
    let ih = Reach-IsOrdered reach in
    record {
      whole = λ on. send_order r.taken r.queue r.ring ps r.parked p full (ih.whole on);
      bounded = omega (arith, length-append r.queue (p ∷ []));
    }
Reach-IsOrdered (take {ps = ps} {rest = rest} {r = r} p reach alive next) =
    let ih = Reach-IsOrdered reach in
    record {
      whole = λ on.
          take_order r.taken r.queue rest (parked_list r.parked ++ r.ring) ps p next (ih.whole on);
      bounded = omega (arith, ih.bounded, ap length next);
    }
Reach-IsOrdered (hang_up reach) = record { whole = λ on. cc; bounded = omega arith }
Reach-IsOrdered (abandon {r = r} reach running gone) =
    let ih = Reach-IsOrdered reach in record { whole = λ on. cc; bounded = ih.bounded }
