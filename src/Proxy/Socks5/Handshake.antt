-- ===== src/Proxy/Socks5/Handshake.antt =====
-- The whole SOCKS5 handshake (src/proxy.rs, `socks5_connect`).
use ace_tun.Base.{ℕ, not, Option, some, List, [], ◌∷◌, ◌++◌, ◌≡◌, refl, ap, ◌∙◌, is_none}
use ace_tun.Text.{Text}
use ace_tun.Config.{ProxyConfig}
use ace_tun.Proxy.Target.{Target}
use ace_tun.Proxy.Stream.{ok, Conn, write_all}
use ace_tun.Proxy.Stream.Laws.{read_exact-append}
use ace_tun.Proxy.Socks5.{
  build_socks5_greeting, build_socks5_userpass, build_socks5_connect_request, check_auth,
  send_credentials, authenticate, request_tunnel, socks5_connect,
}
use ace_tun.Proxy.Socks5.Reply.{Accepting, read_socks5_reply-Accepting}

-- A stream on which no write fails.
abbrev pub stream : List ℕ → List ℕ → Conn
stream input sent = record { input = input; sent = sent; writes = [] }

abbrev pub greeting : ProxyConfig → List ℕ
greeting cfg = build_socks5_greeting (not (is_none cfg.username))

module _ (cfg : ProxyConfig) (dest : Target) (request reply rest : List ℕ)
    (built : build_socks5_connect_request dest ≡ ok request) (accepting : Accepting reply) where
  tunnel_granted :
      (sent : List ℕ)
      → request_tunnel dest (stream (reply ++ rest) sent) ≡ (ok tt, stream rest (sent ++ request))
  unfolding request_tunnel write_all
  tunnel_granted sent = rw (
    built,
    read_socks5_reply-Accepting (stream (reply ++ rest) (sent ++ request)) reply rest accepting
        refl,
  )

  -- If the proxy chooses no authentication and accepts, and no write fails, then the handshake
  -- succeeds, the greeting and the request alone were written, and the stream holds exactly what
  -- follows the proxy's reply.
  socks5_connect-no_auth :
      socks5_connect cfg dest (stream ((5 ∷ 0 ∷ []) ++ (reply ++ rest)) [])
      ≡ (ok tt, stream rest ((greeting cfg) ++ request))
  unfolding socks5_connect authenticate write_all
  socks5_connect-no_auth =
      rw
        (read_exact-append (stream (5 ∷ 0 ∷ reply ++ rest) (greeting cfg)) (5 ∷ 0 ∷ [])
          (reply ++ rest) refl)
        (tunnel_granted (greeting cfg))

  -- If the proxy chooses user name and password, the configuration has both, with at most 255 bytes
  -- each, and the proxy takes them and accepts, and no write fails, then the handshake succeeds,
  -- the greeting, the credentials and the request were written, in this order, and the stream holds
  -- exactly what follows the proxy's reply.
  pub socks5_connect-userpass :
      (user pass : Text) (credentials : List ℕ) (v : ℕ)
      → cfg.username ≡ some user
      → cfg.password ≡ some pass
      → build_socks5_userpass user pass ≡ ok credentials
      → socks5_connect cfg dest (stream ((5 ∷ 2 ∷ []) ++ ((v ∷ 0 ∷ []) ++ (reply ++ rest))) [])
        ≡ (ok tt, stream rest (((greeting cfg) ++ credentials) ++ request))
  unfolding socks5_connect authenticate write_all send_credentials check_auth
  socks5_connect-userpass user pass credentials v has_user has_pass fits =
      let given : Conn = stream (v ∷ 0 ∷ reply ++ rest) (greeting cfg) in
      rw
        (
          read_exact-append (stream (5 ∷ 2 ∷ v ∷ 0 ∷ reply ++ rest) (greeting cfg)) (5 ∷ 2 ∷ [])
              (v ∷ 0 ∷ reply ++ rest) refl,
          ap (λ (o : Option Text). send_credentials o cfg.password given) has_user
              ∙ ap (λ (o : Option Text). send_credentials (some user) o given) has_pass
              ∙ send_lem user pass credentials v fits (greeting cfg),
        )
        (tunnel_granted ((greeting cfg) ++ credentials))
    where
      send_lem :
          (user pass : Text) (credentials : List ℕ) (v : ℕ)
          → build_socks5_userpass user pass ≡ ok credentials
          → (sent : List ℕ)
          → send_credentials (some user) (some pass) (stream (v ∷ 0 ∷ reply ++ rest) sent)
            ≡ (ok tt, stream (reply ++ rest) (sent ++ credentials))
      send_lem user pass credentials v fits sent =
          rw
            (
              fits,
              read_exact-append (stream (v ∷ 0 ∷ reply ++ rest) (sent ++ credentials)) (v ∷ 0 ∷ [])
                  (reply ++ rest) refl,
            )
            refl
