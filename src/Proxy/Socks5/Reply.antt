-- ===== src/Proxy/Socks5/Reply.antt =====
-- The reply to a SOCKS5 request (src/proxy.rs, `read_socks5_reply`): it is consumed to its last byte
-- and no further.
pub mod Sound
use ace_tun.Base.{
  ℕ, ◌+◌, ◌<◌, ◌≤◌, Bool, true, false, not, ◌||◌, List, [], ◌∷◌, ◌++◌, ◌≡◌, ◌≢◌, refl, sym, ap, ◌∙◌,
  arith, length, ltb, ◌==◌, ==_iff, if◌then◌else◌, append_assoc, All, Bool-cases, inl, inr,
  length-append,
}
use ace_tun.Proxy.Stream.{IoError, IoResult, ok, err, panic, Conn, Step, continue, read_exact}
use ace_tun.Proxy.Stream.Laws.{read_exact-append, read_exact-Reads, Reads}
use ace_tun.Proxy.Socks5.{drain_bytes, drain_domain, drain_address, check_reply, read_socks5_reply}

-- The replies of RFC 1928 that accept: version 5, status 0, a reserved byte, the type of the bound
-- address, the address, and a port of two bytes.
pub data Accepting : List ℕ → Type 0 where
  v4_bound : (r : ℕ) (bound : List ℕ) → length bound ≡ 6 → Accepting ((5 ∷ 0 ∷ r ∷ 1 ∷ []) ++ bound)
  v6_bound :
      (r : ℕ) (bound : List ℕ) → length bound ≡ 18 → Accepting ((5 ∷ 0 ∷ r ∷ 4 ∷ []) ++ bound)
  domain_bound :
      (r d : ℕ) (bound : List ℕ)
      → d ≤ 255
      → length bound ≡ d + 2
      → Accepting ((5 ∷ 0 ∷ r ∷ 3 ∷ []) ++ (d ∷ []) ++ bound)

drain_bytes-append :
    (c : Conn) (n : ℕ) (xs rest : List ℕ)
    → n ≤ 270
    → length xs ≡ n
    → drain_bytes n (record c { input = xs ++ rest }) ≡ (ok tt, record c { input = rest })
unfolding drain_bytes
drain_bytes-append c n xs rest h e =
    let fits : ltb 270 n ≡ false = ground arith in
    rw (fits, sym e, read_exact-append (record c { input = xs ++ rest }) xs rest refl)

-- Whatever follows it, an accepting reply is read as a success, and exactly the bytes behind it are
-- left in the stream for the tunnel.
pub read_socks5_reply-Accepting :
    (c : Conn) (reply rest : List ℕ)
    → Accepting reply
    → c.input ≡ reply ++ rest
    → read_socks5_reply c ≡ (ok tt, record c { input = rest })
unfolding read_socks5_reply check_reply drain_address drain_domain
read_socks5_reply-Accepting c reply rest (v4_bound r bound e) h =
    rw (read_exact-append c (5 ∷ 0 ∷ r ∷ 1 ∷ []) (bound ++ rest) h)
      (drain_bytes-append c 6 bound rest (omega arith) e)
read_socks5_reply-Accepting c reply rest (v6_bound r bound e) h =
    rw (read_exact-append c (5 ∷ 0 ∷ r ∷ 4 ∷ []) (bound ++ rest) h)
      (drain_bytes-append c 18 bound rest (omega arith) e)
read_socks5_reply-Accepting c reply rest (domain_bound r d bound le e) h =
    rw
      (
        read_exact-append c (5 ∷ 0 ∷ r ∷ 3 ∷ []) (d ∷ bound ++ rest) h,
        read_exact-append (record c { input = d ∷ bound ++ rest }) (d ∷ []) (bound ++ rest) refl,
      )
      (drain_bytes-append c (d + 2) bound rest (omega arith) e)
