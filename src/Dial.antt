-- ===== src/Dial.antt =====
-- src/dial.rs: the outbound sockets, and their pinning on Linux (src/platform/linux/dial.rs). A
-- socket is what was set on it; the kernel's answers are a `Kernel`.
pub mod Pinned
mod Tests
use ace_tun.Base.{ℕ, ◌*◌, Bool, true, false, not, Option, none, some, if◌then◌else◌}
use ace_tun.Text.{Text}
use ace_tun.Addr.{IpAddr, v4, v6, SocketAddr, is_ipv4, is_loopback}
use ace_tun.Platform.{PhysicalInterface, index_for}

pub record Socket : Type 0 where
  pub is_v4 : Bool
  -- The interface that `SO_BINDTODEVICE` named.
  pub device : Option Text
  -- Which one that was when the connection was attempted, so that the first packet left by it.
  pub connected_by : Option Text
  pub nodelay : Bool
  pub send_buffer : Option ℕ
  pub peer : Option SocketAddr

unfoldable pub new_socket : Bool → Socket
new_socket is_v4 = record {
  is_v4 = is_v4;
  device = none;
  connected_by = none;
  nodelay = false;
  send_buffer = none;
  peer = none;
}

-- A connection attempt within the time limit.
pub data Attempt : Type 0 where
  accepted refused no_answer : Attempt

pub record Kernel : Type 0 where
  -- Whether a socket of the family can be made, and bound to its wildcard address.
  pub opens : Bool → Bool
  pub if_indextoname : ℕ → Option Text
  pub bind_to_device : Text → Bool
  pub takes_nodelay : Bool
  pub takes_send_buffer : ℕ → Bool
  pub connect : Socket → SocketAddr → Attempt

-- `none` is an error.
unfoldable pub pin_socket : Kernel → ℕ → IpAddr → Socket → Option Socket
unfolding is_loopback
pin_socket k index dest socket =
    if is_loopback dest then some socket else elim (k.if_indextoname index) [
      | none ↦ none
      | some name ↦
          if k.bind_to_device name then some (record socket { device = some name }) else none
    ]

unfoldable pub set_send_buffer : Kernel → ℕ → Socket → Option Socket
set_send_buffer k bytes socket =
    if k.takes_send_buffer bytes then some (record socket { send_buffer = some bytes }) else none

abbrev pub udp_send_buffer : ℕ
udp_send_buffer = 512 * 1024

-- A failure is logged, and the socket is used as it is.
abbrev pub or_as_is : Socket → Option Socket → Socket
or_as_is socket none = socket
or_as_is socket (some changed) = changed

-- Pinned, if an interface is known for the destination's family.
abbrev pub pin_to : Kernel → Option ℕ → IpAddr → Socket → Socket
pin_to k none dest socket = socket
pin_to k (some index) dest socket = or_as_is socket (pin_socket k index dest socket)

pub data Dialed : Type 0 where
  connected : Socket → Dialed
  failed timed_out : Dialed

abbrev pub connected_to : SocketAddr → Socket → Socket
connected_to dest socket = record socket { peer = some dest; connected_by = socket.device }

abbrev pub finish_tcp : Kernel → SocketAddr → Socket → Attempt → Dialed
finish_tcp k dest socket accepted =
    connected (record (connected_to dest socket) { nodelay = k.takes_nodelay })
finish_tcp k dest socket refused = failed
finish_tcp k dest socket no_answer = timed_out

unfoldable pub tcp : Kernel → SocketAddr → PhysicalInterface → Dialed
unfolding new_socket is_ipv4
tcp k dest iface =
    if k.opens (is_ipv4 dest.ip)
    then (let socket = pin_to k (index_for iface dest.ip) dest.ip (new_socket (is_ipv4 dest.ip)) in
        finish_tcp k dest socket (k.connect socket dest))
    else failed

-- Connecting a UDP socket does not wait.
abbrev pub finish_udp : SocketAddr → Socket → Attempt → Dialed
finish_udp dest socket accepted = connected (connected_to dest socket)
finish_udp dest socket refused = failed
finish_udp dest socket no_answer = failed

unfoldable pub udp : Kernel → SocketAddr → PhysicalInterface → Dialed
unfolding new_socket is_ipv4
udp k dest iface =
    if k.opens (is_ipv4 dest.ip)
    then (let pinned = pin_to k (index_for iface dest.ip) dest.ip (new_socket (is_ipv4 dest.ip)) in
        let socket = or_as_is pinned (set_send_buffer k udp_send_buffer pinned) in
        finish_udp dest socket (k.connect socket dest))
    else failed
