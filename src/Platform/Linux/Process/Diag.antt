-- ===== src/Platform/Linux/Process/Diag.antt =====
-- src/platform/linux/process.rs, `query_one`: one round trip with the kernel's sock_diag. The
-- encoding of a message is left to the crates netlink-packet-core and netlink-packet-sock-diag: a
-- request is the fields that the code sets. `Diag` is the kernel's side of a socket.
use ace_tun.Base.{ℕ, Bool, none, List, [], ◌&&◌, if◌then◌else◌}
use ace_tun.Platform.Linux.Netlink.{Deserialize, query_loop}
use ace_tun.Platform.Linux.Process.{SocketId, Family, Protocol, Query}

-- `StateFlags`: which states of a socket the kernel may answer for.
pub data States : Type 0 where
  all : States

-- `ExtensionFlags`: what the kernel is to add to the response's fixed header.
pub data Extensions : Type 0 where
  empty : Extensions

pub record InetRequest : Type 0 where
  pub family : Family
  pub protocol : Protocol
  pub extensions : Extensions
  pub states : States
  pub socket_id : SocketId

-- The message's header and payload; its flags are `NLM_F_REQUEST` alone.
pub record DiagMessage : Type 0 where
  pub sequence_number : ℕ
  pub request : InetRequest

pub record Diag : Type 0 where
  -- Whether a socket opens, binds, and takes a receive timeout.
  pub opens : Bool
  pub binds : Bool
  pub times : Bool
  -- Whether a message can be sent, and the datagrams that come then.
  pub sends : DiagMessage → Bool
  pub replies : DiagMessage → List (List ℕ)
  -- The parser of a datagram; of an `InetResponse` it gives the inode.
  pub deserialize : Deserialize ℕ

abbrev pub diag_message : Family → Protocol → SocketId → DiagMessage
diag_message family protocol socket_id = record {
  sequence_number = 1;
  request = record {
    family = family;
    protocol = protocol;
    extensions = empty;
    states = all;
    socket_id = socket_id;
  };
}

unfoldable pub query_one : Diag → Query
unfolding query_loop
query_one k family protocol socket_id =
    let message = diag_message family protocol socket_id in
    if k.opens && (k.binds && (k.times && k.sends message))
    then query_loop k.deserialize message.sequence_number [] (k.replies message)
    else none
