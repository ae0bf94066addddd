-- ===== src/Platform/Linux/Netlink/Stale.antt =====
-- src/platform/linux/netcfg.rs and process.rs: a loop that skips a datagram reads it again.
use ace_tun.Base.{
  ℕ, false, some, List, [], ◌∷◌, ◌++◌, ◌≡◌, refl, sym, append-nil, ap, ◌==◌, length, take,
  take-append, All, append_assoc, ◌∙◌,
}
use ace_tun.Platform.Linux.Netlink.{Message, Deserialize, timed_out, ack_loop, wait_for_ack}

module _ {A : Type 0} (deserialize : Deserialize A) (sequence : ℕ) where
  -- A datagram that is a reply to another request.
  abbrev IsForeign : List ℕ → Type 0
  IsForeign d = (m : Message A) × (deserialize d ≡ some m) × ((m.sequence == sequence) ≡ false)

  ack_loop-stale :
      (first tail : List ℕ) (ds : List (List ℕ))
      → IsForeign first
      → All (λ d. length d ≡ length first) ds
      → ack_loop deserialize sequence (first ++ tail) ds ≡ timed_out
  unfolding ack_loop
  ack_loop-stale first tail [] f same = refl
  ack_loop-stale first tail (d ∷ ds) (m, reads, number) (len, same) =
      let prefix : take (length d) ((first ++ tail) ++ d) ≡ first =
        rw (len, append_assoc first tail d) (take-append first (tail ++ d)) in
      rw (prefix, ack_loop, reads, number)
        (ap (λ buffer. ack_loop deserialize sequence buffer ds) (append_assoc first tail d)
          ∙ ack_loop-stale first (tail ++ d) ds (m, reads, number) same)

  -- When the first datagram answers another request, `wait_for_ack` parses it again in place of
  -- every later datagram of its length: whatever these hold, the acknowledgement among them, it
  -- waits until the receive timeout fails.
  pub wait_for_ack-stale :
      (first : List ℕ) (ds : List (List ℕ))
      → IsForeign first
      → All (λ d. length d ≡ length first) ds
      → wait_for_ack deserialize sequence (first ∷ ds) ≡ timed_out
  unfolding wait_for_ack
  wait_for_ack-stale first ds (m, reads, number) same =
      let whole : take (length first) first ≡ first =
        ap (take (length first)) (sym (append-nil first)) ∙ take-append first [] in
      rw (whole, wait_for_ack, ack_loop, reads, number)
        (ap (λ buffer. ack_loop deserialize sequence buffer ds) (sym (append-nil first))
          ∙ ack_loop-stale first [] ds (m, reads, number) same)
