-- ===== src/Dns.antt =====
-- src/dns.rs: the cache of resolved addresses. Time is an argument, in milliseconds, read once where
-- the code calls `Instant::now`. The map is a list of pairs with one pair for each key; `poisoned`
-- says that a thread panicked while it held the lock, on which the code does nothing.
pub mod Parse
pub mod Cache
mod Tests
use mathlib.Core.Option
use ace_tun.Base.{
  ℕ, ◌+◌, Bool, true, false, ◌&&◌, Option, none, some, List, [], ◌∷◌, ltb, ◌==◌, if◌then◌else◌,
  is_nil, length, ◌>>=◌,
}
use ace_tun.Text.{Text}
use ace_tun.Addr.{IpAddr, ip_eq}
use ace_tun.Dns.Parse.{parse_dns_answers}

-- Five minutes.
abbrev pub dns_cache_ttl : ℕ
dns_cache_ttl = 300_000

pub record Entry : Type 0 where
  pub domain : Text
  pub expires : ℕ

abbrev pub Entries : Type 0
Entries = List (IpAddr × Entry)

pub record DnsCache : Type 0 where
  pub entries : Entries
  pub ttl : ℕ
  pub poisoned : Bool

unfoldable pub new : ℕ → DnsCache
new ttl = record { entries = []; ttl = ttl; poisoned = false }

unfoldable pub default : DnsCache
unfolding new
default = new dns_cache_ttl

-- `HashMap::insert` and `HashMap::get`.
unfoldable pub insert : IpAddr → Entry → Entries → Entries
insert ip e [] = (ip, e) ∷ []
insert ip e ((k, v) ∷ m) =
    let rest = insert ip e m in if ip_eq k ip then (ip, e) ∷ m else (k, v) ∷ rest

unfoldable pub get : IpAddr → Entries → Option Entry
get ip [] = none
get ip ((k, v) ∷ m) = let rest = get ip m in if ip_eq k ip then some v else rest

unfoldable pub retain : (Entry → Bool) → Entries → Entries
retain p [] = []
retain p ((k, v) ∷ m) = let rest = retain p m in if p v then (k, v) ∷ rest else rest

unfoldable pub is_live : ℕ → Entry → Bool
is_live now e = ltb now e.expires

unfoldable pub store : ℕ → DnsCache → IpAddr → Text → DnsCache
unfolding insert
store now c ip domain = if is_nil domain then c else if c.poisoned then c else record c {
  entries = insert ip (record { domain = domain; expires = now + c.ttl }) c.entries;
}

unfoldable pub if_live : ℕ → Entry → Option Text
unfolding is_live
if_live now e = if is_live now e then some e.domain else none

unfoldable pub lookup : ℕ → DnsCache → IpAddr → Option Text
unfolding get if_live
lookup now c ip = if c.poisoned then none else (get ip c.entries >>= if_live now)

unfoldable pub purge_expired : ℕ → DnsCache → DnsCache
unfolding retain is_live
purge_expired now c =
    if c.poisoned then c else record c { entries = retain (is_live now) c.entries }

-- `DnsCache::len`.
unfoldable pub len : ℕ → DnsCache → ℕ
unfolding retain is_live
len now c = if c.poisoned then 0 else length (retain (is_live now) c.entries)

unfoldable pub is_empty : ℕ → DnsCache → Bool
unfolding len
is_empty now c = len now c == 0

unfoldable pub store_all : ℕ → DnsCache → List (IpAddr × Text) → DnsCache
unfolding store
store_all now c [] = c
store_all now c ((ip, name) ∷ answers) = store_all now (store now c ip name) answers

-- `none` is a panic of the parser.
unfoldable pub snoop_response : ℕ → DnsCache → List ℕ → Option DnsCache
unfolding store_all
snoop_response now c payload = Option.map (store_all now c) (parse_dns_answers payload)
