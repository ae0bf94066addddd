-- ===== src/Platform/Process/Laws.antt =====
-- The cache from endpoints to processes, as a map.
use ace_tun.Base.{
  ℕ, ◌-◌, Bool, true, false, none, some, [], ◌∷◌, ◌≡◌, ◌↔◌, refl, arith, ltb, if◌then◌else◌,
}
use ace_tun.Addr.Laws.{ip_eq_iff}
use ace_tun.Platform.Process.{
  EndpointKey, Endpoints, key_eq, get, insert, cached, remember, cache_ttl, bool_eq,
}

bool_eq_iff : (a b : Bool) → (bool_eq a b ≡ true) ↔ (a ≡ b)
bool_eq_iff true true = ground arith
bool_eq_iff true false = ground arith
bool_eq_iff false true = ground arith
bool_eq_iff false false = ground arith

pub key_eq_iff : (a b : EndpointKey) → (key_eq a b ≡ true) ↔ (a ≡ b)
unfolding key_eq
key_eq_iff a b = ground (arith, ip_eq_iff a.ip b.ip, bool_eq_iff a.is_udp b.is_udp)

pub get-insert :
    (key q : EndpointKey) (v : ℕ × ℕ) (m : Endpoints)
    → get q (insert key v m) ≡ (if key_eq key q then some v else get q m)
unfolding get insert
get-insert key q v [] = refl
get-insert key q v ((k, w) ∷ m) =
    ground (arith, get-insert key q v m, key_eq_iff k key, key_eq_iff k q, key_eq_iff key q)

-- What a resolution leaves in the cache: for a time its own process for its own endpoint, and all
-- other endpoints as they were.
pub cached-remember :
    (now later pid : ℕ) (key q : EndpointKey) (m : Endpoints)
    → cached later q (remember now key (some pid) m) ≡ (
        if key_eq key q
        then (if ltb (later - now) cache_ttl then some pid else none)
        else cached later q m)
unfolding cached remember
cached-remember now later pid key q m = ground (arith, get-insert key q (pid, now) m)
