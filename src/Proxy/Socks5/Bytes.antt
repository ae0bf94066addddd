-- ===== src/Proxy/Socks5/Bytes.antt =====
-- The messages of the SOCKS5 client (src/proxy.rs) are bytes, and of bounded length.
use ace_tun.Base.{
  Bool, ℕ, zero, suc, ◌<◌, ◌≤◌, ◌||◌, false, true, List, [], ◌∷◌, ◌++◌, ◌≡◌, refl, arith, length,
  length-append, All, All-append, ltb, is_nil, Bool-cases, inl, inr,
}
use ace_tun.Text.{Text, byte_len}
use ace_tun.Text.Utf8.{as_bytes, encode_char}
use ace_tun.Text.Laws.{length-as_bytes}
use ace_tun.Addr.{v4, v6, octets}
use ace_tun.Proxy.Target.{Target, ip, domain, port}
use ace_tun.Proxy.Stream.{IoResult, ok, err, panic}
use ace_tun.Proxy.Socks5.{
  as_u8, build_socks5_greeting, build_socks5_userpass, address_bytes, map_ok,
  build_socks5_connect_request,
}

abbrev pub IsBytes : List ℕ → Type 0
IsBytes bs = All (λ b. b < 256) bs

-- A `str`: its characters are code points.
abbrev pub IsStr : Text → Type 0
IsStr t = All (λ c. c < 0x110000) t

-- What is built, if anything is, is bytes, and no more than so many.
abbrev pub Sendable : ℕ → IoResult (List ℕ) → Type 0
Sendable most (ok bs) = IsBytes bs × (length bs ≤ most)
Sendable most (err e) = Unit
Sendable most panic = ⊥

octets-IsBytes : (k n : ℕ) → IsBytes (octets k n)
unfolding octets
octets-IsBytes zero n = tt
octets-IsBytes (suc k) n = (omega arith, octets-IsBytes k n)

length-octets : (k n : ℕ) → length (octets k n) ≡ k
unfolding octets
length-octets zero n = refl
length-octets (suc k) n = omega (arith, length-octets k n)

encode_char-IsBytes : (c : ℕ) → c < 0x110000 → IsBytes (encode_char c)
unfolding encode_char
encode_char-IsBytes c h = ground arith

as_bytes-IsBytes : (t : Text) → IsStr t → IsBytes (as_bytes t)
unfolding as_bytes
as_bytes-IsBytes [] h = tt
as_bytes-IsBytes (c ∷ t) (here, later) =
    All-append (λ b. b < 256) (encode_char c) (as_bytes t) (encode_char-IsBytes c here)
      (as_bytes-IsBytes t later)

-- The texts of a destination.
abbrev pub Written : Target → Type 0
Written (ip a p) = Unit {0}
Written (domain host p) = IsStr host

address_bytes-Sendable : (dest : Target) → Written dest → Sendable 257 (address_bytes dest)
unfolding address_bytes
address_bytes-Sendable (ip (v4 a) p) h =
    ((omega arith, octets-IsBytes 4 a), omega (arith, length-octets 4 a))
address_bytes-Sendable (ip (v6 a) p) h =
    ((omega arith, octets-IsBytes 16 a), omega (arith, length-octets 16 a))
address_bytes-Sendable (domain host p) h =
    elim (Bool-cases (is_nil host || ltb 255 (byte_len host))) [
      | inl bad ↦ rw bad tt
      | inr fits ↦ rw fits (
        (omega arith, (omega arith, as_bytes-IsBytes host h)),
        ground (arith, length-as_bytes host),
      )
    ]

userpass-Sendable :
    (user pass : Text) → IsStr user → IsStr pass → Sendable 513 (build_socks5_userpass user pass)
unfolding build_socks5_userpass
userpass-Sendable user pass hu hp =
    elim (Bool-cases (ltb 255 (byte_len user) || ltb 255 (byte_len pass))) [
      | inl long ↦ rw long tt
      | inr fits ↦ rw fits (
        (
          omega arith,
          (
            omega arith,
            All-append (λ b. b < 256) (as_bytes user) (as_u8 (byte_len pass) ∷ as_bytes pass)
                (as_bytes-IsBytes user hu) (omega arith, as_bytes-IsBytes pass hp),
          ),
        ),
        ground (
          arith,
          length-as_bytes user,
          length-as_bytes pass,
          length-append (as_bytes user) (as_u8 (byte_len pass) ∷ as_bytes pass),
        ),
      )
    ]

framed-Sendable :
    (p : ℕ) (r : IoResult (List ℕ))
    → Sendable 257 r
    → Sendable 262 (map_ok (λ address. (5 ∷ 1 ∷ 0 ∷ []) ++ (address ++ octets 2 p)) r)
framed-Sendable p (ok bs) (bytes, short) = (
  (
    omega arith,
    (
      omega arith,
      (omega arith, All-append (λ b. b < 256) bs (octets 2 p) bytes (octets-IsBytes 2 p)),
    ),
  ),
  omega (arith, length-append bs (octets 2 p), length-octets 2 p),
)
framed-Sendable p (err e) h = tt
framed-Sendable p panic h = h

-- Whatever the user name, the password and the destination are, as texts of characters: each of the
-- three messages that the client can send is a list of numbers below 256, or an error is given; the greeting has at most 4 bytes, the authentication at most 513 and the request at most
-- 262; and building them does not panic.
pub messages-Sendable :
    (use_auth : Bool) (user pass : Text) (dest : Target)
    → IsStr user
    → IsStr pass
    → Written dest
    → Sendable 4 (ok (build_socks5_greeting use_auth))
      × Sendable 513 (build_socks5_userpass user pass)
      × Sendable 262 (build_socks5_connect_request dest)
unfolding build_socks5_greeting build_socks5_connect_request
messages-Sendable use_auth user pass dest hu hp hd = (
  greeting use_auth,
  userpass-Sendable user pass hu hp,
  framed-Sendable (port dest) (address_bytes dest) (address_bytes-Sendable dest hd),
)
  where
    greeting : (auth : Bool) → Sendable 4 (ok (build_socks5_greeting auth))
    greeting true = omega arith
    greeting false = omega arith
