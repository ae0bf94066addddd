-- ===== src/Proxy/Socks5/Request.antt =====
-- The messages of the SOCKS5 client (src/proxy.rs) as a server reads them.
use ace_tun.Base.{
  ℕ, zero, suc, ◌+◌, ◌*◌, ◌<◌, ◌≤◌, ◌^◌, ◌/◌, ◌%◌, false, ◌||◌, Option, none, some, List, [], ◌∷◌,
  ◌++◌, ◌≡◌, ◌≢◌, ◌&&◌, refl, sym, ap, ◌∙◌, arith, length, length-append, append-nil, take, drop,
  ltb, ◌==◌, if◌then◌else◌, take-append, drop-append, ◌>>=◌,
}
use ace_tun.Text.{Text, byte_len}
use ace_tun.Text.Utf8.{as_bytes}
use ace_tun.Text.Laws.{length-as_bytes}
use ace_tun.Addr.{v4, v6, octets, ipv4_octets}
use ace_tun.Proxy.Target.{Target, ip, domain, port}
use ace_tun.Proxy.Stream.{ok}
use ace_tun.Proxy.Socks5.{as_u8, build_socks5_userpass, address_bytes, build_socks5_connect_request}

-- A server's reader of RFC 1929: a length before each of the two texts.
abbrev pub split_sized : List ℕ → Option (List ℕ × List ℕ)
split_sized [] = none
split_sized (n ∷ bytes) = if ltb (length bytes) n then none else some (take n bytes, drop n bytes)

abbrev pub no_more {ℓ} : {A : Type ℓ} → A → List ℕ → Option A
no_more a [] = some a
no_more a (b ∷ bytes) = none

abbrev pub read_userpass : List ℕ → Option (List ℕ × List ℕ)
read_userpass (suc zero ∷ bytes) =
    split_sized bytes >>= λ u. split_sized u.1 >>= λ p. no_more (u.0, p.0) p.1
read_userpass _ = none

split_sized-append :
    (n : ℕ) (xs ys : List ℕ) → length xs ≡ n → split_sized (n ∷ xs ++ ys) ≡ some (xs, ys)
split_sized-append n xs ys e =
    let long : ltb (length (xs ++ ys)) (length xs) ≡ false = ground (arith, length-append xs ys) in
    rw (sym e, long, take-append xs ys, drop-append xs ys)

small_u8 : (n : ℕ) → n ≤ 255 → as_u8 n ≡ n
small_u8 n h = omega arith

sized_text :
    (t : Text) (rest : List ℕ)
    → byte_len t ≤ 255
    → split_sized (as_u8 (byte_len t) ∷ as_bytes t ++ rest) ≡ some (as_bytes t, rest)
sized_text t rest h =
    split_sized-append (as_u8 (byte_len t)) (as_bytes t) rest
      (length-as_bytes t ∙ sym (small_u8 (byte_len t) h))

-- A user name and a password of at most 255 bytes each become a message in which a server reads
-- these two, and nothing else.
pub build_socks5_userpass-read :
    (user pass : Text)
    → byte_len user ≤ 255
    → byte_len pass ≤ 255
    → (bytes : List ℕ) × (build_socks5_userpass user pass ≡ ok bytes)
      × (read_userpass bytes ≡ some (as_bytes user, as_bytes pass))
unfolding build_socks5_userpass
build_socks5_userpass-read user pass hu hp =
    let fits : ltb 255 (byte_len user) || ltb 255 (byte_len pass) ≡ false = ground arith in
    rw fits (
      _,
      refl,
      rw
          (
            sized_text user (as_u8 (byte_len pass) ∷ as_bytes pass) hu,
            ap (λ (bs : List ℕ). split_sized (as_u8 (byte_len pass) ∷ bs))
                (sym (append-nil (as_bytes pass))),
            sized_text pass [] hp,
          )
          refl,
    )

-- A server's reader of a CONNECT request of RFC 1928: the type of the address, its bytes, and the
-- port.
abbrev pub read_port : List ℕ → Option ℕ
read_port (hi ∷ lo ∷ []) = some (hi * 256 + lo)
read_port _ = none

abbrev pub read_address : List ℕ → Option (ℕ × List ℕ × List ℕ)
read_address [] = none
read_address (atyp ∷ bytes) =
    if atyp == 1
    then (split_sized (4 ∷ bytes) >>= λ a. some (atyp, a.0, a.1))
    else if atyp == 4
    then (split_sized (16 ∷ bytes) >>= λ a. some (atyp, a.0, a.1))
    else if atyp == 3
    then (split_sized bytes >>= λ a. some (atyp, a.0, a.1))
    else none

abbrev pub read_destination : List ℕ → Option (ℕ × List ℕ × ℕ)
read_destination bytes = do
  (atyp, address, rest) ← read_address bytes
  port ← read_port rest
  some (atyp, address, port)

abbrev pub read_request : List ℕ → Option (ℕ × List ℕ × ℕ)
read_request (version ∷ command ∷ reserved ∷ bytes) =
    if version == 5 && command == 1 && reserved == 0 then read_destination bytes else none
read_request _ = none

-- The type and the bytes of a destination's address.
abbrev pub address_of : Target → ℕ × List ℕ
address_of (ip (v4 a) p) = (1, ipv4_octets a)
address_of (ip (v6 a) p) = (4, octets 16 a)
address_of (domain host p) = (3, as_bytes host)

-- A destination that SOCKS5 can name: a domain has between 1 and 255 bytes.
abbrev pub IsNameable : Target → Type 0
IsNameable (ip a p) = Unit {0}
IsNameable (domain host p) = (host ≢ []) × (byte_len host ≤ 255)

read_port-octets : (p : ℕ) → p < 2 ^ 16 → read_port (octets 2 p) ≡ some p
unfolding octets
read_port-octets p h =
    let same : p / 256 ^ 1 % 256 * 256 + p / 256 ^ 0 % 256 ≡ p = omega arith in ap some same

address_bytes-read :
    (dest : Target) (rest : List ℕ)
    → IsNameable dest
    → (bytes : List ℕ) × (address_bytes dest ≡ ok bytes)
      × (read_address (bytes ++ rest) ≡ some ((address_of dest).0, (address_of dest).1, rest))
unfolding address_bytes octets
address_bytes-read (ip (v4 a) p) rest h =
    (_, refl, rw (split_sized-append 4 (octets 4 a) rest refl) refl)
address_bytes-read (ip (v6 a) p) rest h =
    (_, refl, rw (split_sized-append 16 (octets 16 a) rest refl) refl)
address_bytes-read (domain [] p) rest (named, short) = absurd (named refl)
address_bytes-read (domain (c ∷ host) p) rest (named, short) =
    let fits : ltb 255 (byte_len (c ∷ host)) ≡ false = ground arith in
    rw fits (_, refl, rw (sized_text (c ∷ host) rest short) refl)

-- For every destination that SOCKS5 can name (any address, or a domain of 1 to 255 bytes), with a
-- port of 16 bits, a request is built in which a server reads this address, as its type and bytes,
-- and this port.
pub build_socks5_connect_request-read :
    (dest : Target)
    → port dest < 2 ^ 16
    → IsNameable dest
    → (bytes : List ℕ) × (build_socks5_connect_request dest ≡ ok bytes)
      × (read_request bytes ≡ some ((address_of dest).0, (address_of dest).1, port dest))
unfolding build_socks5_connect_request
build_socks5_connect_request-read dest hp named =
    let (bytes, e, read) = address_bytes-read dest (octets 2 (port dest)) named in
    rw e (_, refl, rw (read, read_port-octets (port dest) hp) refl)
