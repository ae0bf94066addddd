-- ===== src/Proxy/Stream.antt =====
-- A TCP stream to a proxy (`tokio::net::TcpStream`) as src/proxy.rs uses it: `write_all` and
-- `read_exact`.
pub mod Laws
use ace_tun.Base.{ℕ, Bool, true, false, List, [], ◌∷◌, ◌++◌, length, take, drop, ltb, if◌then◌else◌}
use ace_tun.Text.{Text}

pub data IoError : Type 0 where
  -- The stream ended, a read or a write failed, no connection was made.
  unexpected_eof read_failed write_failed connect_failed timed_out : IoError
  bad_version auth_needed auth_failed no_method : IoError
  credential_too_long bad_domain_length : IoError
  rejected : ℕ → IoError
  unknown_address_type : IoError
  closed_in_connect headers_too_large invalid_response : IoError
  failed_status : ℕ → IoError

pub data IoResult {ℓ} (A : Type ℓ) : Type ℓ where
  ok : A → IoResult A
  err : IoError → IoResult A
  -- An index out of range.
  panic : IoResult A

-- What the proxy still sends before it closes, what was written to it, and which of the next writes
-- succeed; those that are not listed do.
pub record Conn : Type 0 where
  pub input : List ℕ
  pub sent : List ℕ
  pub writes : List Bool

abbrev pub Step {ℓ} : Type ℓ → Type ℓ
Step A = Conn → IoResult A × Conn

abbrev pub continue {ℓ κ} :
    {A : Type ℓ} {B : Type κ} → (A → Step B) → IoResult A × Conn → IoResult B × Conn
continue f (ok a, c) = f a c
continue f (err e, c) = (err e, c)
continue f (panic, c) = (panic, c)

infixl 5 ◌>>=◌
abbrev pub ◌>>=◌ {ℓ κ} : {A : Type ℓ} {B : Type κ} → Step A → (A → Step B) → Step B
(m >>= f) c = continue f (m c)

abbrev pub pure {ℓ} : {A : Type ℓ} → IoResult A → Step A
pure r c = (r, c)

unfoldable pub write_as : List Bool → List ℕ → Conn → IoResult (Unit {0}) × Conn
write_as [] bytes c = (ok tt, record c { sent = c.sent ++ bytes })
write_as (true ∷ more) bytes c = (ok tt, record c { sent = c.sent ++ bytes; writes = more })
write_as (false ∷ more) bytes c = (err write_failed, record c { writes = more })

unfoldable pub write_all : List ℕ → Step (Unit {0})
unfolding write_as
write_all bytes c = write_as c.writes bytes c

unfoldable pub read_exact : ℕ → Step (List ℕ)
read_exact n c =
    if ltb (length c.input) n
    then (err unexpected_eof, record c { input = [] })
    else (ok (take n c.input), record c { input = drop n c.input })
