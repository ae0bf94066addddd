-- ===== src/Platform/Process.antt =====
-- src/platform/linux/process.rs and src/platform/macos/process.rs: the cache from endpoints to
-- processes, which both files declare alike. Time is in nanoseconds. The code uses a poisoned lock
-- as it is, so that poisoning changes nothing.
pub mod Laws
use ace_tun.Base.{
  ℕ, ◌+◌, ◌-◌, Bool, true, false, not, ◌&&◌, Option, none, some, List, [], ◌∷◌, ltb, ◌==◌,
  if◌then◌else◌, ◌>>=◌,
}
use ace_tun.Addr.{IpAddr, SocketAddr, ip_eq}

-- 250 ms.
abbrev pub cache_ttl : ℕ
cache_ttl = 250_000_000

pub record EndpointKey : Type 0 where
  pub ip : IpAddr
  pub port : ℕ
  pub is_udp : Bool

abbrev pub bool_eq : Bool → Bool → Bool
bool_eq true b = b
bool_eq false b = not b

unfoldable pub key_eq : EndpointKey → EndpointKey → Bool
unfolding ip_eq
key_eq a b = ip_eq a.ip b.ip && (a.port == b.port && bool_eq a.is_udp b.is_udp)

abbrev pub key_of : SocketAddr → Bool → EndpointKey
key_of local is_udp = record { ip = local.ip; port = local.port; is_udp = is_udp }

-- For each endpoint the process, and when it was resolved.
abbrev pub Endpoints : Type 0
Endpoints = List (EndpointKey × (ℕ × ℕ))

unfoldable pub get : EndpointKey → Endpoints → Option (ℕ × ℕ)
get key [] = none
get key ((k, v) ∷ m) = let rest = get key m in if key_eq k key then some v else rest

unfoldable pub insert : EndpointKey → ℕ × ℕ → Endpoints → Endpoints
insert key v [] = (key, v) ∷ []
insert key v ((k, w) ∷ m) =
    let rest = insert key v m in if key_eq k key then (key, v) ∷ m else (k, w) ∷ rest

-- `duration_since` stops at zero.
abbrev pub if_fresh : ℕ → ℕ × ℕ → Option ℕ
if_fresh now (pid, cached_at) = if ltb (now - cached_at) cache_ttl then some pid else none

unfoldable pub cached : ℕ → EndpointKey → Endpoints → Option ℕ
unfolding get
cached now key m = get key m >>= if_fresh now

unfoldable pub remember : ℕ → EndpointKey → Option ℕ → Endpoints → Endpoints
unfolding insert
remember now key none m = m
remember now key (some pid) m = insert key (pid, now) m
