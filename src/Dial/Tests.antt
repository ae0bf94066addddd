-- ===== src/Dial/Tests.antt =====
-- The dials on concrete input: the tests of src/dial.rs and src/platform/linux/dial.rs.
use ace_tun.Base.{◌*◌, ◌+◌, ◌^◌, true, false, none, some, ◌≡◌, refl}
use ace_tun.Addr.{v4, v6, SocketAddr}
use ace_tun.Platform.{no_interface, index_for}
use ace_tun.Dial.{Kernel, accepted, connected, tcp, udp, pin_socket, set_send_buffer, new_socket}

-- No interface has a name, and the buffer is not raised.
abbrev bare : Kernel
bare = record {
  opens = λ is_v4. true;
  if_indextoname = λ i. none;
  bind_to_device = λ n. true;
  takes_nodelay = true;
  takes_send_buffer = λ n. false;
  connect = λ socket dest. accepted;
}

abbrev server : SocketAddr
server = record { ip = v4 0x08080808; port = 53 }

unpinned_dial_still_connects :
    tcp bare server no_interface
    ≡ connected (record {
      is_v4 = true;
      device = none;
      connected_by = none;
      nodelay = true;
      send_buffer = none;
      peer = some server;
    })
unfolding tcp no_interface index_for
unpinned_dial_still_connects = refl

loopback_destinations_are_not_pinned :
    (pin_socket bare 0xDEAD (v4 (127 * 2 ^ 24 + 1)) (new_socket true) ≡ some (new_socket true))
    × (pin_socket bare 0xDEAD (v6 1) (new_socket false) ≡ some (new_socket false))
unfolding pin_socket
loopback_destinations_are_not_pinned = (refl, refl)

bogus_interface_index_is_an_error : pin_socket bare 0xDEAD (v4 0x08080808) (new_socket true) ≡ none
unfolding pin_socket
bogus_interface_index_is_an_error = refl

-- A dial whose pin and send buffer fail goes on without them.
failed_pin_is_not_fatal :
    udp bare server (record { v4_index = some 0xDEAD; v6_index = none })
    ≡ connected (record {
      is_v4 = true;
      device = none;
      connected_by = none;
      nodelay = false;
      send_buffer = none;
      peer = some server;
    })
unfolding udp pin_socket set_send_buffer index_for
failed_pin_is_not_fatal = refl
