-- ===== src/Proxy/Socks5.antt =====
-- src/proxy.rs: the SOCKS5 client.
pub mod Reply
pub mod Request
pub mod Bytes
pub mod Handshake
pub mod Credentials
use ace_tun.Base.{
  ℕ, ◌+◌, ◌%◌, Bool, true, false, ◌||◌, not, Option, none, some, List, [], ◌∷◌, ◌++◌, ltb, ◌==◌,
  if◌then◌else◌, is_nil, length, is_none,
}
use ace_tun.Text.{Text, byte_len}
use ace_tun.Text.Utf8.{as_bytes}
use ace_tun.Addr.{IpAddr, v4, v6, octets, ipv4_octets}
use ace_tun.Config.{ProxyConfig}
use ace_tun.Proxy.Target.{Target, ip, domain, port}
use ace_tun.Proxy.Stream.{
  IoError, bad_version, auth_needed, auth_failed, no_method, credential_too_long, bad_domain_length,
  rejected, unknown_address_type, IoResult, ok, err, panic, Conn, Step, ◌>>=◌, pure, write_all,
  read_exact,
}

unfoldable pub build_socks5_greeting : Bool → List ℕ
build_socks5_greeting use_auth = if use_auth then 5 ∷ 2 ∷ 0 ∷ 2 ∷ [] else 5 ∷ 1 ∷ 0 ∷ []

-- `len as u8`.
abbrev pub as_u8 : ℕ → ℕ
as_u8 n = n % 256

unfoldable pub build_socks5_userpass : Text → Text → IoResult (List ℕ)
build_socks5_userpass user pass =
    if ltb 255 (byte_len user) || ltb 255 (byte_len pass)
    then err credential_too_long
    else ok (1 ∷ as_u8 (byte_len user) ∷ as_bytes user ++ (as_u8 (byte_len pass) ∷ as_bytes pass))

-- The address type, and the address.
unfoldable pub address_bytes : Target → IoResult (List ℕ)
address_bytes (ip (v4 a) p) = ok (1 ∷ ipv4_octets a)
address_bytes (ip (v6 a) p) = ok (4 ∷ octets 16 a)
address_bytes (domain host p) =
    if is_nil host || ltb 255 (byte_len host)
    then err bad_domain_length
    else ok (3 ∷ as_u8 (byte_len host) ∷ as_bytes host)

abbrev pub map_ok {ℓ κ} : {A : Type ℓ} {B : Type κ} → (A → B) → IoResult A → IoResult B
map_ok f (ok a) = ok (f a)
map_ok f (err e) = err e
map_ok f panic = panic

unfoldable pub build_socks5_connect_request : Target → IoResult (List ℕ)
unfolding address_bytes port
build_socks5_connect_request dest =
    map_ok (λ address. (5 ∷ 1 ∷ 0 ∷ []) ++ (address ++ octets 2 (port dest))) (address_bytes dest)

-- `&mut scratch[..drain]` of an array of 270 bytes.
unfoldable pub drain_bytes : ℕ → Step (Unit {0})
unfolding read_exact
drain_bytes drain =
    if ltb 270 drain then pure panic else (read_exact drain >>= λ scratch. pure (ok tt))

unfoldable pub drain_domain : List ℕ → Step (Unit {0})
unfolding drain_bytes
drain_domain (d ∷ []) = drain_bytes (d + 2)
drain_domain _ = pure panic

unfoldable pub drain_address : ℕ → Step (Unit {0})
unfolding drain_bytes drain_domain
drain_address atyp =
    if atyp == 1
    then drain_bytes (4 + 2)
    else if atyp == 4
    then drain_bytes (16 + 2)
    else if atyp == 3
    then (read_exact 1 >>= drain_domain)
    else pure (err unknown_address_type)

unfoldable pub check_reply : List ℕ → Step (Unit {0})
unfolding drain_address
check_reply (version ∷ reply ∷ reserved ∷ atyp ∷ []) =
    if not (version == 5) || not (reply == 0)
    then pure (err (rejected reply))
    else drain_address atyp
check_reply _ = pure panic

unfoldable pub read_socks5_reply : Step (Unit {0})
unfolding check_reply read_exact
read_socks5_reply = read_exact 4 >>= check_reply

unfoldable pub check_auth : List ℕ → IoResult (Unit {0})
check_auth (version ∷ status ∷ []) = if status == 0 then ok tt else err auth_failed
check_auth _ = panic

unfoldable pub send_credentials : Option Text → Option Text → Step (Unit {0})
unfolding check_auth build_socks5_userpass write_all read_exact
send_credentials (some user) (some pass) = do
  bytes ← pure (build_socks5_userpass user pass)
  written ← write_all bytes
  reply ← read_exact 2
  pure (check_auth reply)
send_credentials _ _ = pure (err auth_needed)

unfoldable pub authenticate : ProxyConfig → List ℕ → Step (Unit {0})
unfolding send_credentials
authenticate cfg (version ∷ method ∷ []) =
    if not (version == 5)
    then pure (err bad_version)
    else if method == 0
    then pure (ok tt)
    else if method == 2
    then send_credentials cfg.username cfg.password
    else pure (err no_method)
authenticate cfg _ = pure panic

unfoldable pub request_tunnel : Target → Step (Unit {0})
unfolding build_socks5_connect_request read_socks5_reply write_all
request_tunnel dest = do
  bytes ← pure (build_socks5_connect_request dest)
  written ← write_all bytes
  read_socks5_reply

unfoldable pub socks5_connect : ProxyConfig → Target → Step (Unit {0})
unfolding build_socks5_greeting write_all read_exact authenticate request_tunnel
socks5_connect cfg dest = do
  written ← write_all (build_socks5_greeting (not (is_none cfg.username)))
  method ← read_exact 2
  accepted ← authenticate cfg method
  request_tunnel dest
