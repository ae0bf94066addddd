-- ===== src/Platform/Linux/Process/Inode.antt =====
-- src/platform/linux/process.rs: the link targets of sockets.
use ace_tun.Base.{ℕ, ◌^◌, ◌<◌, ◌-◌, some, [], ◌∷◌, ◌++◌, ◌≡◌, arith}
use ace_tun.Text.{Text, codes}
use ace_tun.Text.Decimal.{decimal, parse_uint-decimal}
use ace_tun.Platform.Linux.Process.{strip_last, socket_inode_of}

-- `socket:[<inode>]`, as the kernel writes it.
abbrev pub socket_link : ℕ → Text
socket_link inode = codes "socket:[" ++ (decimal inode ++ b']' ∷ [])

strip_last-append : (e : ℕ) (t : Text) → strip_last e (t ++ e ∷ []) ≡ some t
unfolding strip_last
strip_last-append e [] = ground arith
strip_last-append e (c ∷ []) = ground arith
strip_last-append e (c ∷ (d ∷ t)) = rw (strip_last-append e (d ∷ t))

-- `socket_inode_of` reads back the inode from the link target that the kernel writes for it.
pub socket_inode_of-socket_link :
    (inode : ℕ) → inode < 2 ^ 32 → socket_inode_of (socket_link inode) ≡ some inode
unfolding socket_inode_of
socket_inode_of-socket_link inode h =
    rw (strip_last-append b']' (decimal inode))
      (parse_uint-decimal (2 ^ 64 - 1) inode h (omega arith))
