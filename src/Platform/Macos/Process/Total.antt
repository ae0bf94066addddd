-- ===== src/Platform/Macos/Process/Total.antt =====
-- src/platform/macos/process.rs: the walk over any bytes at all.
use ace_tun.Base.{
  ℕ, zero, suc, ◌+◌, ◌^◌, ◌≤◌, ◌<◌, Option, none, some, List, ◌≡◌, refl, inl, inr, arith, ltb,
  length, take, drop, ◌>>=◌, get_range, get_range-of_le, Holds, Holds->>=, >>=-eq-some,
  Option-cases, Bool-cases, ◌-◌,
}
use ace_tun.Base.Int.{signed32}
use ace_tun.Base.Words.{from_le}
use ace_tun.Addr.{SocketAddr, IpAddr}
use ace_tun.Platform.Macos.Process.{
  Candidate, read_u32_le, read_i32_le, record_end, next_record_pair, specificity_of, candidate_of,
  score_record, rank_record, record_endpoints, keep_best, scan_loop, scan_pcblist, pid_of,
}

record_end_bounds :
    (table : List ℕ) (offset least end : ℕ)
    → record_end table offset least ≡ some end
    → (offset + least ≤ end) × (end ≤ length table)
unfolding record_end
record_end_bounds table offset least end h = ground arith

pub next_record_pair_bounds :
    (table : List ℕ) (offset inpcb_end socket_end : ℕ)
    → next_record_pair table offset ≡ some (inpcb_end, socket_end)
    → (offset + 80 ≤ inpcb_end) × (inpcb_end + 72 ≤ socket_end) × (socket_end ≤ length table)
unfolding next_record_pair
next_record_pair_bounds table offset a b h =
    let (a', ha, k) = >>=-eq-some (record_end table offset 80) _ h in
    let (b', hb, e) = >>=-eq-some (record_end table a' 72) _ k in
    ground (arith, record_end_bounds table offset 80 a' ha, record_end_bounds table a' 72 b' hb)

-- A process id as the kernel gives them, and a rank that the code assigns.
abbrev pub IsOwner : Candidate → Type 0
IsOwner c = (0 < c.pid) × (c.pid < 2 ^ 31) × (0 < c.specificity) × (c.specificity ≤ 3)

specificity_range :
    (la fa : IpAddr) (fp : ℕ) (local remote : SocketAddr) (n : ℕ)
    → specificity_of la fa fp local remote ≡ some n
    → (0 < n) × (n ≤ 3)
unfolding specificity_of
specificity_range la fa fp local remote n h = ground arith

rank_record_range :
    (inpcb : List ℕ) (local remote : SocketAddr) (n : ℕ)
    → rank_record inpcb local remote ≡ some n
    → (0 < n) × (n ≤ 3)
unfolding rank_record
rank_record_range inpcb local remote n ranked =
    let (e, read, rank) = >>=-eq-some (record_endpoints inpcb local) _ ranked in
    specificity_range e.0 e.1 e.2 local remote n rank

candidate_of-IsOwner : (w n : ℕ) → (0 < n) × (n ≤ 3) → Holds IsOwner (candidate_of (signed32 w) n)
candidate_of-IsOwner w n h = ground arith

candidate_of-read_i32_le-IsOwner :
    (socket : List ℕ) (n : ℕ)
    → (0 < n) × (n ≤ 3)
    → Holds IsOwner (read_i32_le socket 68 >>= λ pid. candidate_of pid n)
unfolding read_i32_le
candidate_of-read_i32_le-IsOwner socket n h = elim (Option-cases (get_range socket 68 72)) [
  | inl short ↦ rw short tt
  | inr (b, read) ↦ rw read (candidate_of-IsOwner (from_le b) n h)
]

score_record-IsOwner :
    (inpcb socket : List ℕ) (local remote : SocketAddr)
    → Holds IsOwner (score_record inpcb socket local remote)
unfolding score_record
score_record-IsOwner inpcb socket local remote =
    Holds->>= IsOwner (rank_record inpcb local remote) _ λ n ranked.
      candidate_of-read_i32_le-IsOwner socket n (rank_record_range inpcb local remote n ranked)

keep_best-IsOwner :
    (best found : Option Candidate)
    → Holds IsOwner best
    → Holds IsOwner found
    → Holds IsOwner (keep_best best found)
keep_best-IsOwner best none hb hf = hb
keep_best-IsOwner none (some c) hb hf = hf
keep_best-IsOwner (some b) (some c) hb hf = elim (Bool-cases (ltb b.specificity c.specificity)) [
  | inl better ↦ rw better hf
  | inr worse ↦ rw worse hb
]

-- The loop ends within its fuel, by the end of the table and not by a fault.
scan_loop_total :
    (fuel : ℕ) (table : List ℕ) (offset : ℕ) (best : Option Candidate) (local remote : SocketAddr)
    → length table - offset < fuel
    → Holds IsOwner best
    → (found : Option Candidate) × (scan_loop fuel table offset best local remote ≡ some found)
      × Holds IsOwner found
unfolding scan_loop
scan_loop_total zero table offset best local remote enough h = elim enough [ ]
scan_loop_total (suc fuel) table offset best local remote enough h =
    elim (Option-cases (next_record_pair table offset)) [
      | inl end ↦ rw (end, scan_loop) (best, refl, h)
      | inr ((a, b), more) ↦
          let (up, on, inside) = next_record_pair_bounds table offset a b more in
          rw
            (
              more,
              scan_loop,
              get_range-of_le table offset a (omega arith) (omega arith),
              get_range-of_le table a b (omega arith) inside,
            )
            (scan_loop_total fuel table b _ local remote (omega arith) (
              keep_best-IsOwner best _ h (
                score_record-IsOwner (take (a - offset) (drop offset table))
                  (take (b - a) (drop a table)) local remote)))
    ]

pid_of-Holds :
    (best : Option Candidate)
    → Holds IsOwner best
    → Holds (λ pid. (0 < pid) × (pid < 2 ^ 31)) (pid_of best)
pid_of-Holds none h = tt
pid_of-Holds (some c) h = (h.0, h.1)

-- On any bytes at all, `scan_pcblist` returns: no slice is out of range and the walk ends; and a
-- process id that it returns is positive and below 2 ^ 31.
pub scan_pcblist_total :
    (table : List ℕ) (local remote : SocketAddr)
    → (found : Option ℕ) × (scan_pcblist table local remote ≡ some found)
      × Holds (λ pid. (0 < pid) × (pid < 2 ^ 31)) found
unfolding scan_pcblist
scan_pcblist_total table local remote = elim (Option-cases (read_u32_le table 0)) [
  | inl short ↦ rw (short, scan_pcblist) (none, refl, tt)
  | inr (offset, read) ↦ elim (Bool-cases (ltb offset 24)) [
    | inl small ↦ rw (read, scan_pcblist, small) (none, refl, tt)
    | inr big ↦
        let (best, run, owner) =
          scan_loop_total (suc (length table)) table offset none local remote (omega arith) tt in
        rw (read, scan_pcblist, big, run) (pid_of best, refl, pid_of-Holds best owner)
  ]
]
