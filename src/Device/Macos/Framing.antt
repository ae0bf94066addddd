-- ===== src/Device/Macos/Framing.antt =====
-- src/device.rs: what the macOS device writes, it reads back.
use ace_tun.Base.{
  ℕ, zero, suc, ap, ◌+◌, ◌/◌, ◌≤◌, false, some, List, [], ◌∷◌, ◌≡◌, ◌⊎◌, inl, inr, refl, arith, ltb,
  ◌==◌, if◌then◌else◌, length, take, is_nil,
}
use ace_tun.Device.{ready, Round, io_loop, ReadBuf, put_slice, deliver}
use ace_tun.Device.Macos.{
  family_of, write_datagram, strip_header, finish_read, poll_read, poll_write,
}

-- The version in the first four bits of a packet is 4 or 6.
abbrev pub IsIp : List ℕ → Type 0
IsIp [] = ⊥
IsIp (b ∷ bs) = (b / 16 ≡ 4) ⊎ (b / 16 ≡ 6)

-- The number of the address family, as the kernel reads it from a datagram.
abbrev pub family_number : List ℕ → ℕ
family_number (b ∷ bs) = if b / 16 == 4 then 2 else 30
family_number [] = 0

family_of-IsIp : (p : List ℕ) → IsIp p → family_of p ≡ some (family_number p)
unfolding family_of
family_of-IsIp [] ip = elim ip [ ]
family_of-IsIp (b ∷ bs) (inl four) = ground arith
family_of-IsIp (b ∷ bs) (inr six) = ground arith

is_nil-IsIp : (p : List ℕ) → IsIp p → is_nil p ≡ false
is_nil-IsIp [] ip = elim ip [ ]
is_nil-IsIp (b ∷ bs) ip = refl

take_all : (n : ℕ) (xs : List ℕ) → length xs ≤ n → take n xs ≡ xs
take_all zero [] h = refl
take_all zero (x ∷ xs) h = absurd (omega arith)
take_all (suc n) [] h = refl
take_all (suc n) (x ∷ xs) h = ap (◌∷◌ x) (take_all n xs (omega arith))

-- An IP packet of 4 to 65,535 bytes that the kernel accepts whole, after any rounds in which the call
-- would block or the descriptor was ready for nothing else: `poll_write` reports the packet's own
-- length and gives the kernel one datagram, the family's number in four bytes and then the packet;
-- and `poll_read` of that datagram adds exactly the packet to a buffer that has room for it.
pub poll_write-poll_read :
    (p : List ℕ) (buf : ReadBuf) (writes : List (Round ℕ)) (reads : List (Round (List ℕ)))
    → IsIp p
    → 4 ≤ length p
    → length p ≤ 65_535
    → length p ≤ buf.remaining
    → io_loop writes ≡ ready (length p + 4)
    → io_loop reads ≡ ready (0 ∷ 0 ∷ 0 ∷ family_number p ∷ p)
    → (poll_write writes p ≡ (ready (length p), (0 ∷ 0 ∷ 0 ∷ family_number p ∷ p) ∷ []))
      × (poll_read reads buf ≡ (ready tt, put_slice buf p))
unfolding poll_write write_datagram poll_read finish_read strip_header deliver
poll_write-poll_read p buf writes reads ip least most room wrote got = (
  rw (full, small, long, family_of-IsIp p ip, wrote)
      (ap (λ n. (ready n, (0 ∷ 0 ∷ 0 ∷ family_number p ∷ p) ∷ [])) (omega arith)),
  rw (got, fits, roomy, headed),
)
  where
    full : is_nil p ≡ false
    full = is_nil-IsIp p ip

    small : ltb 65_535 (length p) ≡ false
    small = ground arith

    long : ltb (length p) 4 ≡ false
    long = ground arith

    fits : take 65_535 p ≡ p
    fits = take_all 65_535 p most

    headed : ltb (suc (suc (suc (suc (length p))))) 4 ≡ false
    headed = ground arith

    roomy : ltb buf.remaining (length p) ≡ false
    roomy = ground arith
