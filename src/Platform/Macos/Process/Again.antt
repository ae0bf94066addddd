-- ===== src/Platform/Macos/Process/Again.antt =====
-- src/platform/macos/process.rs: `resolve_pid` after it has resolved an endpoint.
use ace_tun.Base.{
  ℕ, ◌-◌, ◌<◌, Bool, none, some, ◌≡◌, refl, lt→ltb, Option-cases, inl, inr, ◌∙◌, >>=-eq-some,
}
use ace_tun.Addr.{SocketAddr}
use ace_tun.Platform.Process.{Endpoints, key_of, cached, remember, cache_ttl}
use ace_tun.Platform.Process.Laws.{key_eq_iff, cached-remember}
use ace_tun.Platform.Macos.Process.{scan_pcblist}
use ace_tun.Platform.Macos.Process.Resolve.{Sysctl, pcblist_table, resolve_anew, resolve_pid}

remembers :
    (now : ℕ) (k : Sysctl) (cache after : Endpoints) (local remote : SocketAddr) (is_udp : Bool)
    (pid : ℕ)
    → resolve_anew now k cache local remote is_udp ≡ some (after, some pid)
    → after ≡ remember now (key_of local is_udp) (some pid) cache
unfolding resolve_anew
remembers now k cache after local remote is_udp pid h =
    elim (Option-cases (pcblist_table k is_udp)) [
      | inl failed ↦ cc (rw (failed, resolve_anew) at h)
      | inr (table, got) ↦
          let (found, scanned, made) =
            >>=-eq-some (scan_pcblist table local remote) _ (rw (got, resolve_anew) at h) in
          cc
    ]

-- When `resolve_pid` finds no fresh entry and resolves a local endpoint and protocol to a process,
-- it answers the same for 250 ms, for any peer and whatever the kernel's tables then hold, and
-- leaves the cache as it is.
pub resolve_pid_again :
    (now later : ℕ) (k k' : Sysctl) (cache after : Endpoints) (local remote remote' : SocketAddr)
    (is_udp : Bool) (pid : ℕ)
    → cached now (key_of local is_udp) cache ≡ none
    → resolve_pid now k cache local remote is_udp ≡ some (after, some pid)
    → later - now < cache_ttl
    → resolve_pid later k' after local remote' is_udp ≡ some (after, some pid)
unfolding resolve_pid
resolve_pid_again now later k k' cache after local remote remote' is_udp pid miss found soon =
    let key = key_of local is_udp in
    let kept : after ≡ remember now key (some pid) cache =
      remembers now k cache after local remote is_udp pid (rw (miss, resolve_pid) at found) in
    let hit : cached later key after ≡ some pid = rw kept (
      cached-remember now later pid key key cache
      ∙ rw ((key_eq_iff key key).1 refl, lt→ltb (later - now) cache_ttl soon)) in
    rw (hit, resolve_pid)
