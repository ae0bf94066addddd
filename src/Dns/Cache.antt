-- ===== src/Dns/Cache.antt =====
-- The cache (src/dns.rs, `DnsCache`) as a map from addresses to names with an expiry.
use ace_tun.Base.{
  ℕ, ◌+◌, ◌≤◌, Bool, true, false, none, some, [], ◌∷◌, ◌≡◌, refl, inl, inr, arith, ltb,
  if◌then◌else◌, is_nil, All, Bool-cases, ◌>>=◌,
}
use ace_tun.Text.{Text}
use ace_tun.Addr.{IpAddr, ip_eq}
use ace_tun.Addr.Laws.{ip_eq_iff}
use ace_tun.Dns.{
  Entry, Entries, DnsCache, new, insert, get, retain, is_live, store, if_live, lookup,
  purge_expired,
}

-- Every address is the key of at most one entry.
abbrev Absent : IpAddr → Entries → Type 0
Absent ip m = All (λ (p : IpAddr × Entry). ip_eq p.0 ip ≡ false) m

abbrev pub Distinct : Entries → Type 0
Distinct [] = Unit {0}
Distinct ((k, v) ∷ m) = Absent k m × Distinct m

get-insert :
    (ip q : IpAddr) (e : Entry) (m : Entries)
    → get q (insert ip e m) ≡ (if ip_eq ip q then some e else get q m)
unfolding get insert
get-insert ip q e [] = refl
get-insert ip q e ((k, v) ∷ m) =
    ground (arith, get-insert ip q e m, ip_eq_iff k ip, ip_eq_iff k q, ip_eq_iff ip q)

Absent-insert :
    (k ip : IpAddr) (e : Entry) (m : Entries)
    → ip_eq ip k ≡ false
    → Absent k m
    → Absent k (insert ip e m)
unfolding insert
Absent-insert k ip e [] h a = (h, tt)
Absent-insert k ip e ((j, v) ∷ m) h a = ground (arith, Absent-insert k ip e m h a.1)

Absent-trans : (k ip : IpAddr) (m : Entries) → ip_eq k ip ≡ true → Absent k m → Absent ip m
Absent-trans k ip [] h a = tt
Absent-trans k ip ((j, v) ∷ m) h a =
    (ground (arith, ip_eq_iff k ip, ip_eq_iff j ip, ip_eq_iff j k), Absent-trans k ip m h a.1)

ip_eq_flip : (a b : IpAddr) → ip_eq a b ≡ false → ip_eq b a ≡ false
ip_eq_flip a b h = ground (arith, ip_eq_iff a b, ip_eq_iff b a)

insert-Distinct : (ip : IpAddr) (e : Entry) (m : Entries) → Distinct m → Distinct (insert ip e m)
unfolding insert
insert-Distinct ip e [] d = (tt, tt)
insert-Distinct ip e ((k, v) ∷ m) (a, d) = elim (Bool-cases (ip_eq k ip)) [
  | inl same ↦ rw same (Absent-trans k ip m same a, d)
  | inr other ↦
      rw other (Absent-insert k ip e m (ip_eq_flip k ip other) a, insert-Distinct ip e m d)
]

Absent-retain : (k : IpAddr) (p : Entry → Bool) (m : Entries) → Absent k m → Absent k (retain p m)
unfolding retain
Absent-retain k p [] a = tt
Absent-retain k p ((j, v) ∷ m) a = ground (arith, Absent-retain k p m a.1)

retain-Distinct : (p : Entry → Bool) (m : Entries) → Distinct m → Distinct (retain p m)
unfolding retain
retain-Distinct p [] d = tt
retain-Distinct p ((k, v) ∷ m) (a, d) = ground (arith, retain-Distinct p m d, Absent-retain k p m a)

get-Absent : (q : IpAddr) (m : Entries) → Absent q m → get q m ≡ none
unfolding get
get-Absent q [] a = refl
get-Absent q ((k, v) ∷ m) (h, a) = rw (h, get-Absent q m a)

-- Storing a name and reading at any later or earlier time: the entry is seen for its own address
-- while it has not expired, an empty name is not stored, a poisoned cache gives nothing, and all
-- other addresses are as before.
pub lookup-store :
    (c : DnsCache) (ip q : IpAddr) (domain : Text) (now later : ℕ)
    → lookup later (store now c ip domain) q ≡ (
        if is_nil domain
        then lookup later c q
        else if c.poisoned
        then none
        else if ip_eq ip q
        then (if ltb later (now + c.ttl) then some domain else none)
        else lookup later c q)
unfolding lookup store
lookup-store c ip q domain now later =
    ground (arith, get-insert ip q (record { domain = domain; expires = now + c.ttl }) c.entries)

get-retain :
    (now later : ℕ) (q : IpAddr) (m : Entries)
    → now ≤ later
    → Distinct m
    → (get q (retain (is_live now) m) >>= if_live later) ≡ (get q m >>= if_live later)
unfolding get retain if_live is_live
get-retain now later q [] le d = refl
get-retain now later q ((k, v) ∷ m) le (a, d) = elim (Bool-cases (ip_eq k q)) [
  | inr other ↦ ground (arith, get-retain now later q m le d)
  | inl same ↦
      let gone : get q (retain (is_live now) m) ≡ none =
        get-Absent q (retain (is_live now) m)
          (Absent-retain q (is_live now) m (Absent-trans k q m same a)) in
      ground arith
]

-- Purging at a time removes nothing that a lookup at that time or later could see.
pub lookup-purge_expired :
    (c : DnsCache) (q : IpAddr) (now later : ℕ)
    → now ≤ later
    → Distinct c.entries
    → lookup later (purge_expired now c) q ≡ lookup later c q
unfolding lookup purge_expired
lookup-purge_expired c q now later le d = ground (arith, get-retain now later q c.entries le d)

new-Distinct : (ttl : ℕ) → Distinct (new ttl).entries
unfolding new
new-Distinct ttl = tt

store-Distinct :
    (now : ℕ) (c : DnsCache) (ip : IpAddr) (domain : Text)
    → Distinct c.entries
    → Distinct (store now c ip domain).entries
unfolding store
store-Distinct now c ip domain d = elim (Bool-cases (is_nil domain)) [
  | inl empty ↦ rw empty d
  | inr named ↦ elim (Bool-cases c.poisoned) [
    | inl bad ↦ rw (named, bad) d
    | inr good ↦ rw (named, good) (insert-Distinct ip _ c.entries d)
  ]
]

-- The operations of the cache, at a time.
pub data Step : DnsCache → DnsCache → Type 0 where
  stored : (now : ℕ) (c : DnsCache) (ip : IpAddr) (domain : Text) → Step c (store now c ip domain)
  purged : (now : ℕ) (c : DnsCache) → Step c (purge_expired now c)
  poison : (c : DnsCache) → Step c (record c { poisoned = true })

pub data Reach (ttl : ℕ) : DnsCache → Type 0 where
  fresh : Reach ttl (new ttl)
  step : {c d : DnsCache} → Reach ttl c → Step c d → Reach ttl d

Step-Distinct : {c d : DnsCache} → Step c d → Distinct c.entries → Distinct d.entries
unfolding purge_expired
Step-Distinct (stored now c ip domain) h = store-Distinct now c ip domain h
Step-Distinct (purged now c) h = elim (Bool-cases c.poisoned) [
  | inl bad ↦ rw bad h
  | inr good ↦ rw good (retain-Distinct (is_live now) c.entries h)
]
Step-Distinct (poison c) h = h

-- Whatever sequence of stores and purges a cache has seen, each address has at most one entry.
pub Reach-Distinct : {ttl : ℕ} {c : DnsCache} → Reach ttl c → Distinct c.entries
Reach-Distinct {ttl} fresh = new-Distinct ttl
Reach-Distinct (step r s) = Step-Distinct s (Reach-Distinct r)
