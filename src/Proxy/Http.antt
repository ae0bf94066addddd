-- ===== src/Proxy/Http.antt =====
-- src/proxy.rs: the HTTP CONNECT client. A read of the stream gives a chunk of bytes, an empty one at
-- its end, or fails (`none`). The crate `base64` and the display of addresses are parameters.
pub mod Chunks
use ace_tun.Base.{
  ℕ, ◌-◌, Bool, true, false, ◌&&◌, not, Option, none, some, List, [], ◌∷◌, ◌++◌, length, take, drop,
  get_elem?, ltb, leb, ◌==◌, if◌then◌else◌, is_nil, ◌>>=◌,
}
use ace_tun.Text.{Text, codes, text_eq, byte_len, split_on, is_whitespace, filter_text, parse_uint}
use ace_tun.Text.Utf8.{as_bytes, from_utf8}
use ace_tun.Text.Decimal.{decimal}
use ace_tun.Addr.{IpAddr}
use ace_tun.Config.{ProxyConfig}
use ace_tun.Proxy.Target.{Target, ip, domain, port}
use ace_tun.Proxy.Stream.{
  IoError, read_failed, write_failed, closed_in_connect, headers_too_large, invalid_response,
  failed_status, IoResult, ok, err, panic,
}

pub record HttpCrates : Type 0 where
  pub encode : Text → Text
  pub show_ip : IpAddr → Text

pub record HttpStream : Type 0 where
  pub reads : List (Option (List ℕ))
  pub sent : List ℕ
  pub takes_write : Bool

abbrev crlf : Text
crlf = 13 ∷ 10 ∷ []

unfoldable pub ends_head : List ℕ → Bool
unfolding text_eq
ends_head buf = leb 4 (length buf) && text_eq (drop (length buf - 4) buf) (13 ∷ 10 ∷ 13 ∷ 10 ∷ [])

-- `Target::host_string`.
unfoldable pub host_string : HttpCrates → Target → Text
host_string lib (ip a p) = lib.show_ip a
host_string lib (domain h p) = h

auth_line : HttpCrates → Option (Text × Text) → Text
auth_line lib none = []
auth_line lib (some (user, pass)) =
    codes "Proxy-Authorization: Basic " ++ lib.encode (user ++ codes ":" ++ pass) ++ crlf

unfoldable pub build_http_connect_request : HttpCrates → Text → ℕ → Option (Text × Text) → List ℕ
unfolding auth_line as_bytes decimal
build_http_connect_request lib host port auth =
    let authority : Text = host ++ codes ":" ++ decimal port in
    as_bytes (
      codes "CONNECT "
      ++ authority
      ++ codes " HTTP/1.1"
      ++ crlf
      ++ codes "Host: "
      ++ authority
      ++ crlf
      ++ auth_line lib auth
      ++ codes "Proxy-Connection: keep-alive"
      ++ crlf
      ++ crlf)

strip_cr : Text → Text
strip_cr [] = []
strip_cr (c ∷ []) = if c == 13 then [] else c ∷ []
strip_cr (c ∷ d ∷ t) = c ∷ strip_cr (d ∷ t)

-- `text.lines().next()`: up to the first line feed, without a carriage return before it.
first_line : Text → Option Text
unfolding split_on strip_cr
first_line [] = none
first_line (c ∷ t) = line (split_on (λ x. x == 10) (c ∷ t))
  where
    line : List Text → Option Text
    line [] = none
    -- A last line without a line feed keeps its carriage return.
    line (l ∷ []) = some l
    line (l ∷ m ∷ more) = some (strip_cr l)

status_of_line : Text → Option ℕ
unfolding text_eq split_on is_whitespace filter_text parse_uint
status_of_line line =
    if text_eq (take 7 line) (codes "HTTP/1.")
    then (get_elem? (filter_text (λ w. not (is_nil w)) (split_on is_whitespace line)) 1
        >>= parse_uint 65535)
    else none

unfoldable pub parse_http_status : List ℕ → Option ℕ
unfolding from_utf8 first_line status_of_line
parse_http_status response = do
  text ← from_utf8 response
  line ← first_line text
  status_of_line line

-- The loop that reads the headers: the bytes that came, and the reads that are left.
unfoldable pub read_head :
    List ℕ → List (Option (List ℕ)) → IoResult (List ℕ × List (Option (List ℕ)))
unfolding ends_head
read_head buf [] = err closed_in_connect
read_head buf (none ∷ more) = err read_failed
read_head buf (some chunk ∷ more) = elim (is_nil chunk) [
  | true ↦ err closed_in_connect
  | false ↦ elim (ends_head (buf ++ chunk)) [
    | true ↦ ok (buf ++ chunk, more)
    | false ↦ elim (ltb 65536 (length (buf ++ chunk))) [
      | true ↦ err headers_too_large
      | false ↦ read_head (buf ++ chunk) more
    ]
  ]
]

unfoldable pub check_status : Option ℕ → IoResult (Unit {0})
check_status none = err invalid_response
check_status (some status) = if status == 200 then ok tt else err (failed_status status)

unfoldable pub finish_head :
    HttpStream → IoResult (List ℕ × List (Option (List ℕ))) → IoResult (Unit {0}) × HttpStream
unfolding check_status parse_http_status
finish_head s (ok (head, more)) = (check_status (parse_http_status head), record s { reads = more })
finish_head s (err e) = (err e, s)
finish_head s panic = (panic, s)

unfoldable pub zip : Option Text → Option Text → Option (Text × Text)
zip (some a) (some b) = some (a, b)
zip _ _ = none

unfoldable pub http_connect :
    HttpCrates → ProxyConfig → Target → HttpStream → IoResult (Unit {0}) × HttpStream
unfolding build_http_connect_request host_string port zip read_head finish_head
http_connect lib cfg dest s =
    let request =
      build_http_connect_request lib (host_string lib dest) (port dest)
        (zip cfg.username cfg.password) in
    let asked : HttpStream = record s { sent = s.sent ++ request } in
    if s.takes_write then finish_head asked (read_head [] s.reads) else (err write_failed, s)
