-- ===== src/Platform/Macos/Process/Search.antt =====
-- src/platform/macos/process.rs: the best candidate of a table is the first of the most specific.
use ace_tun.Base.{
  ℕ, suc, length-append, ◌^◌, ◌<◌, false, Option, none, some, List, [], ◌∷◌, ◌++◌, ◌≡◌, refl, arith,
  ltb, length, All, find?, or_else,
}
use ace_tun.Addr.{SocketAddr}
use ace_tun.Platform.Macos.Process.{Candidate, scan_pcblist, pid_of}
use ace_tun.Platform.Macos.Process.Dump.{
  Socket, IsSocket, IsHeader, records, owner, is_connection, is_bound, is_wildcard,
}
use ace_tun.Platform.Macos.Process.Decode.{candidate}
use ace_tun.Platform.Macos.Process.Owner.{
  best_of, length-records, read_u32_le-append, scan_loop-records,
}

abbrev ranked : ℕ → Option Socket → Option Candidate
ranked n none = none
ranked n (some s) = some (record { pid = s.pid; specificity = n })

abbrev pub socket_pid : Option Socket → Option ℕ
socket_pid none = none
socket_pid (some s) = some s.pid

module _ (local remote : SocketAddr) where
  abbrev connection : List Socket → Option Candidate
  connection ss = ranked 3 (find? (is_connection local remote) ss)

  abbrev bound : List Socket → Option Candidate
  bound ss = ranked 2 (find? (is_bound local remote) ss)

  abbrev wildcard : List Socket → Option Candidate
  wildcard ss = ranked 1 (find? (is_wildcard local remote) ss)

  best_of-connection :
      (p : ℕ) (ss : List Socket)
      → best_of local remote (some (record { pid = p; specificity = 3 })) ss
        ≡ some (record { pid = p; specificity = 3 })
  unfolding best_of candidate
  best_of-connection p [] = refl
  best_of-connection p (s ∷ ss) = ground (arith, best_of-connection p ss)

  best_of-bound :
      (p : ℕ) (ss : List Socket)
      → best_of local remote (some (record { pid = p; specificity = 2 })) ss
        ≡ or_else (connection ss) (some (record { pid = p; specificity = 2 }))
  unfolding best_of candidate
  best_of-bound p [] = refl
  best_of-bound p (s ∷ ss) = ground (arith, best_of-bound p ss, best_of-connection s.pid ss)

  best_of-wildcard :
      (p : ℕ) (ss : List Socket)
      → best_of local remote (some (record { pid = p; specificity = 1 })) ss
        ≡ or_else (connection ss) (or_else (bound ss) (some (record { pid = p; specificity = 1 })))
  unfolding best_of candidate
  best_of-wildcard p [] = refl
  best_of-wildcard p (s ∷ ss) =
      ground (arith, best_of-wildcard p ss, best_of-bound s.pid ss, best_of-connection s.pid ss)

  best_of-none :
      (ss : List Socket)
      → best_of local remote none ss ≡ or_else (connection ss) (or_else (bound ss) (wildcard ss))
  unfolding best_of candidate
  best_of-none [] = refl
  best_of-none (s ∷ ss) = ground (
    arith,
    best_of-none ss,
    best_of-wildcard s.pid ss,
    best_of-bound s.pid ss,
    best_of-connection s.pid ss,
  )

  best_of-owner :
      (ss : List Socket)
      → pid_of (best_of local remote none ss) ≡ socket_pid (owner local remote ss)
  unfolding owner
  best_of-owner ss = rw (best_of-none ss) (ground arith)

-- On a table that holds a header and then any sockets, in records of the layout that the file gives,
-- whatever their lengths and the bytes in them that are not read, `scan_pcblist` returns the process of
-- the connection with the flow's two endpoints, if some socket of an owned process is one, or else of
-- the first socket on the flow's local address, whatever its peer, or else of the first wildcard
-- socket on its local port, and otherwise nothing. The table has fewer than 2 ^ 64 bytes, and the
-- sockets' fields are in range.
pub scan_pcblist-records :
    (header : List ℕ) (ss : List Socket) (local remote : SocketAddr)
    → IsHeader header
    → All IsSocket ss
    → length (header ++ records ss) < 2 ^ 64
    → scan_pcblist (header ++ records ss) local remote ≡ some (socket_pid (owner local remote ss))
unfolding scan_pcblist
scan_pcblist-records header ss local remote h w small =
    let start = read_u32_le-append [] header (records ss) 24 (h.0, h.1, omega arith) small in
    let wide : ltb (length header) 24 ≡ false = ground arith in
    let run =
      scan_loop-records (suc (length (header ++ records ss))) header ss none local remote
        (omega (arith, length-append header (records ss), length-records ss)) small w in
    rw (start, scan_pcblist, wide, run, best_of-owner local remote ss)
