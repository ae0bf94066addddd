-- ===== src/Dial/Pinned.antt =====
-- src/dial.rs and src/netstack.rs: the sockets that the engine opens for its own flows.
use ace_tun.Base.{ℕ, true, some, ◌≡◌}
use ace_tun.Text.{Text}
use ace_tun.Netstack.Decide.{State}
use ace_tun.Dial.{Socket, Kernel, Dialed, connected, failed, timed_out}

-- The sockets of a dial that connected.
abbrev pub Connects : (Socket → Type 0) → Dialed → Type 0
Connects P (connected s) = P s
Connects P failed = Unit
Connects P timed_out = Unit

-- A kernel that gives a name for the interface and binds to it.
abbrev pub Binds : Kernel → ℕ → Text → Type 0
Binds k index name = (k.if_indextoname index ≡ some name) × (k.bind_to_device name ≡ true)

abbrev IsPinnedTo : Text → Socket → Type 0
IsPinnedTo name c = c.device ≡ some name

-- Bound to the interface, and already so when it connected.
abbrev pub IsBoundTo : Text → Socket → Type 0
IsBoundTo name c = (c.device ≡ some name) × (c.connected_by ≡ some name)
