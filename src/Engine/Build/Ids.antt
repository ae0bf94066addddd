-- ===== src/Engine/Build/Ids.antt =====
-- The ids of the configurations that `build` (src/lib.rs) registers.
use ace_tun.Base.{
  ℕ, zero, suc, ◌+◌, ◌<◌, ◌%◌, ◌^◌, true, false, some, List, [], ◌∷◌, ◌≡◌, refl, sym, ap, subst,
  arith, length, get_elem?, find?, ◌==◌, Option-cases, inl, inr, some_inj,
}
use ace_tun.Addr.{IpAddr}
use ace_tun.Config.{ProxyConfig, validate}
use ace_tun.Error.{Result, ok, err}
use ace_tun.Text.{Text}
use ace_tun.Rule.Glob.{RegexCrate}
use ace_tun.Rule.Compile.{RuleSet}
use ace_tun.Rule.Compile
use ace_tun.State.{find_proxy_config, or_first}
use ace_tun.Engine.{Engine}
use ace_tun.Engine.Build.{
  Builder, with_id, cons_ok, assign_ids, with_default, with_rules, engine_of, build,
}

ok_inj {ℓ} : {A : Type ℓ} {a b : A} → ok a ≡ ok b → a ≡ b
ok_inj h = cc

split_ids :
    (v : Result (Unit {0})) (rest : Result (List ProxyConfig)) (d : ProxyConfig)
    (ds : List ProxyConfig)
    → (elim v [ ok u ↦ cons_ok d rest | err e ↦ err e ]) ≡ ok ds
    → (tail : List ProxyConfig) × (rest ≡ ok tail) × (ds ≡ d ∷ tail)
unfolding cons_ok
split_ids (ok u) (ok tail) d ds h = (tail, refl, cc)
split_ids (ok u) (err e) d ds h = cc
split_ids (err e) rest d ds h = cc

-- The first configuration, or one behind it.
find_behind :
    (i : ℕ) (x c : ProxyConfig) (tail : List ProxyConfig) (k : ℕ)
    → i + suc (length tail) < 2 ^ 32
    → get_elem? (with_id i x ∷ tail) k ≡ some c
    → ((j : ℕ)
        → get_elem? tail j ≡ some c
        → find? (λ (d : ProxyConfig). d.config_id == i + 1 + j + 1) tail ≡ some c)
    → find? (λ (d : ProxyConfig). d.config_id == i + k + 1) (with_id i x ∷ tail) ≡ some c
unfolding with_id
find_behind i x c tail zero bound at next =
    let same : ((i + 1) % 2 ^ 32 == i + zero + 1) ≡ true = ground arith in rw (find?, same) at
find_behind i x c tail (suc k) bound at next =
    let differs : ((i + 1) % 2 ^ 32 == i + suc k + 1) ≡ false = ground arith in
    let shift : i + 1 + k + 1 ≡ i + suc k + 1 = omega arith in
    rw (find?, differs)
      (subst (λ (n : ℕ). find? (λ (d : ProxyConfig). d.config_id == n) tail ≡ some c) shift
        (next k at))

find-assign_ids :
    (i : ℕ) (cs ds : List ProxyConfig) (k : ℕ) (c : ProxyConfig)
    → assign_ids i cs ≡ ok ds
    → i + length ds < 2 ^ 32
    → get_elem? ds k ≡ some c
    → find? (λ (d : ProxyConfig). d.config_id == i + k + 1) ds ≡ some c
unfolding assign_ids
find-assign_ids i [] ds k c made bound at = let empty : ds ≡ [] = cc in cc (rw empty at at)
find-assign_ids i (x ∷ cs) ds k c made bound at =
    let (tail, rest, same) =
      split_ids (validate (with_id i x)) (assign_ids (i + 1) cs) (with_id i x) ds made in
    let room : i + suc (length tail) < 2 ^ 32 =
      subst (λ (t : List ProxyConfig). i + length t < 2 ^ 32) same bound in
    subst
      (λ (t : List ProxyConfig). find? (λ (d : ProxyConfig). d.config_id == i + k + 1) t ≡ some c)
      (sym same)
      (find_behind i x c tail k room
        (subst (λ (t : List ProxyConfig). get_elem? t k ≡ some c) same at)
        (λ j found. find-assign_ids (i + 1) cs tail j c rest (omega (arith, room)) found))

module _ (rx : RegexCrate) (show : IpAddr → Text) (pid : ℕ) (b : Builder) where
  registered :
      (r : Result (List ProxyConfig)) (e : Engine rx.Regex)
      → (elim r [ err x ↦ some (err x) | ok cs ↦ with_rules rx b pid cs (Compile.new rx b.rules) ])
        ≡ some (ok e)
      → r ≡ ok e.shared.proxy_configs
  unfolding with_rules engine_of
  registered (err x) e h = cc
  registered (ok cs) e h = elim (Option-cases (Compile.new rx b.rules)) [
    | inl panicked ↦ cc (rw panicked at h)
    | inr (rules, compiled) ↦
        let made : engine_of rx b pid cs rules ≡ e = ok_inj (some_inj (rw compiled at h)) in
        ap (λ (f : Engine rx.Regex). ok f.shared.proxy_configs) made
  ]

  -- In an engine that was built with fewer than 2^32 proxies, the id k + 1 names the proxy at index
  -- k, in the order of registration.
  pub build-find_proxy_config :
      (e : Engine rx.Regex) (k : ℕ) (c : ProxyConfig)
      → build rx show pid b ≡ some (ok e)
      → length e.shared.proxy_configs < 2 ^ 32
      → get_elem? e.shared.proxy_configs k ≡ some c
      → find_proxy_config e.shared (k + 1) ≡ some c
  unfolding build find_proxy_config or_first
  build-find_proxy_config e k c made bound at =
      let assigned : assign_ids 0 (with_default show b) ≡ ok e.shared.proxy_configs =
        registered (assign_ids 0 (with_default show b)) e made in
      let first : 0 + k + 1 ≡ k + 1 = omega arith in
      let found : find? (λ (d : ProxyConfig). d.config_id == k + 1) e.shared.proxy_configs
          ≡ some c =
        subst
          (λ (n : ℕ). find? (λ (d : ProxyConfig). d.config_id == n) e.shared.proxy_configs ≡ some c)
          first
          (find-assign_ids 0 (with_default show b) e.shared.proxy_configs k c assigned
            (omega (arith, bound)) at) in
      rw found refl
