-- ===== src/Proxy/Tests.antt =====
-- The messages of the test module of src/proxy.rs, and the theorems applied to them.
use ace_tun.Base.{ℕ, true, false, some, List, [], ◌∷◌, ◌++◌, ◌≡◌, refl, arith}
use ace_tun.Text.{codes, byte_len}
use ace_tun.Text.Utf8.{as_bytes}
use ace_tun.Addr.{v4, octets}
use ace_tun.Config.{ProxyConfig}
use ace_tun.Config.Kind.{ProxyType}
use ace_tun.Proxy.Target.{domain, Target, ip, port}
use ace_tun.Proxy.Stream.{ok}
use ace_tun.Proxy.Socks5.{
  build_socks5_greeting, build_socks5_userpass, build_socks5_connect_request, read_socks5_reply,
  socks5_connect,
}
use ace_tun.Proxy.Socks5.Reply.{Accepting, domain_bound}
use ace_tun.Proxy.Socks5.Reply.Sound.{Outcome, read_socks5_reply-Outcome}
use ace_tun.Proxy.Socks5.Bytes.{Sendable, messages-Sendable}
use ace_tun.Proxy.Socks5.Request.{read_request, address_of, build_socks5_connect_request-read}
use ace_tun.Proxy.Socks5.Handshake.{stream, greeting, socks5_connect-userpass}
use ace_tun.Proxy.Socks5.Credentials.{IsUncredentialed, socks5_connect-IsUncredentialed}
use ace_tun.Proxy.Http.{
  HttpCrates, HttpStream, http_connect, parse_http_status, check_status, ends_head,
}
use ace_tun.Proxy.Http.Chunks.{EndsOnce, http_connect-chunks}

abbrev cfg : ProxyConfig
cfg = record {
  config_id = 1;
  proxy_type = ProxyType.socks5;
  host = codes "127.0.0.1";
  port = 1080;
  username = some (codes "ab");
  password = some (codes "cde");
  send_domain_to_proxy = true;
}

abbrev site : Target
site = ip (v4 0x5db8d822) 443

greets : build_socks5_greeting true ≡ 5 ∷ 2 ∷ 0 ∷ 2 ∷ []
unfolding build_socks5_greeting
greets = refl

abbrev request : List ℕ
request = 5 ∷ 1 ∷ 0 ∷ 1 ∷ 93 ∷ 184 ∷ 216 ∷ 34 ∷ 0x01 ∷ 0xbb ∷ []

requests : build_socks5_connect_request site ≡ ok request
unfolding build_socks5_connect_request octets
requests = refl

abbrev credentials : List ℕ
credentials = 1 ∷ 2 ∷ b'a' ∷ b'b' ∷ 3 ∷ b'c' ∷ b'd' ∷ b'e' ∷ []

authenticates : build_socks5_userpass (codes "ab") (codes "cde") ≡ ok credentials
unfolding build_socks5_userpass byte_len as_bytes
authenticates = refl

build_socks5_connect_request-read_example :
    (bytes : List ℕ) × (build_socks5_connect_request site ≡ ok bytes)
    × (read_request bytes ≡ some ((address_of site).0, (address_of site).1, port site))
unfolding port
build_socks5_connect_request-read_example = build_socks5_connect_request-read site (omega arith) tt

-- A reply with a bound name of one byte.
abbrev reply : List ℕ
reply = 5 ∷ 0 ∷ 0 ∷ 3 ∷ 1 ∷ b'x' ∷ 0 ∷ 0 ∷ []

reply-Accepting : Accepting reply
reply-Accepting = domain_bound 0 1 (b'x' ∷ 0 ∷ 0 ∷ []) (omega arith) refl

read_socks5_reply-Outcome_example :
    Outcome (stream (5 ∷ 0 ∷ []) []) (read_socks5_reply (stream (5 ∷ 0 ∷ []) []))
read_socks5_reply-Outcome_example =
    read_socks5_reply-Outcome (stream (5 ∷ 0 ∷ []) []) (omega arith, (omega arith, tt))

socks5_connect-userpass_example :
    socks5_connect cfg site (stream ((5 ∷ 2 ∷ []) ++ ((1 ∷ 0 ∷ []) ++ (reply ++ []))) [])
    ≡ (ok tt, stream [] ((greeting cfg ++ credentials) ++ request))
socks5_connect-userpass_example =
    socks5_connect-userpass cfg site request reply [] requests reply-Accepting (codes "ab")
      (codes "cde") credentials 1 refl refl authenticates

abbrev crates : HttpCrates
crates = record { encode = λ t. t; show_ip = λ a. codes "1.2.3.4" }

-- A head of the empty line alone, in two reads.
abbrev head : List ℕ
head = 13 ∷ 10 ∷ 13 ∷ 10 ∷ []

abbrev two_reads : HttpStream
two_reads = record {
  reads = some (13 ∷ []) ∷ some (10 ∷ 13 ∷ 10 ∷ []) ∷ [];
  sent = [];
  takes_write = true;
}

head-EndsOnce : EndsOnce head
unfolding ends_head
head-EndsOnce = (refl, shorter)
  where
    shorter : (p : List ℕ) (b : ℕ) (q : List ℕ) → head ≡ p ++ b ∷ q → ends_head p ≡ false
    shorter [] b q e = refl
    shorter (x ∷ []) b q e = refl
    shorter (x ∷ y ∷ []) b q e = refl
    shorter (x ∷ y ∷ z ∷ []) b q e = refl
    shorter (x ∷ y ∷ z ∷ t ∷ []) b q e = cc
    shorter (x ∷ y ∷ z ∷ t ∷ u ∷ p) b q e = cc

http_connect-chunks_example :
    ((http_connect crates cfg site two_reads).0 ≡ check_status (parse_http_status head))
    × ((http_connect crates cfg site two_reads).1.reads ≡ [])
http_connect-chunks_example =
    http_connect-chunks crates cfg site two_reads head (13 ∷ []) ((10 ∷ 13 ∷ 10 ∷ []) ∷ []) [] refl
      head-EndsOnce (omega arith) (refl, (refl, tt)) refl refl

abbrev granted : HttpStream
granted = record {
  reads = some (as_bytes (codes "HTTP/1.1 200 OK") ++ head) ∷ [];
  sent = [];
  takes_write = true;
}

is_granted : (http_connect crates cfg site granted).0 ≡ ok tt
unfolding http_connect as_bytes
is_granted = refl

-- The proxy chooses no authentication and then refuses.
socks5_connect-IsUncredentialed_example :
    IsUncredentialed cfg site
      (socks5_connect cfg site
        (record { input = 5 ∷ 0 ∷ 5 ∷ 2 ∷ 0 ∷ 1 ∷ []; sent = []; writes = [] })).1.sent
socks5_connect-IsUncredentialed_example =
    socks5_connect-IsUncredentialed cfg site 5 0 (5 ∷ 2 ∷ 0 ∷ 1 ∷ []) [] (λ e. ground arith)

messages-Sendable_example :
    Sendable 4 (ok (build_socks5_greeting true))
    × Sendable 513 (build_socks5_userpass (codes "ab") (codes "cde"))
    × Sendable 262 (build_socks5_connect_request (domain (codes "x.com") 443))
messages-Sendable_example =
    messages-Sendable true (codes "ab") (codes "cde") (domain (codes "x.com") 443) (omega arith)
      (omega arith) (omega arith)
