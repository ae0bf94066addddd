-- ===== src/Platform/Linux/Process/Scan.antt =====
-- src/platform/linux/process.rs: the map that a scan of `/proc` builds.
use ace_tun.Base.{
  ℕ, Option, none, some, List, [], ◌∷◌, ◌≡◌, refl, arith, ◌==◌, if◌then◌else◌, ◌>>=◌, or_else, ◌∙◌,
  ap,
}
use ace_tun.Text.{Text}
use ace_tun.Platform.Linux.Process.{
  ProcEntry, ProcessCache, inode_to_pid, Inodes, socket_inode_of, inode_get, or_insert,
  insert_found, scan_fds, pid_of_name, scan_entry, scan_entries, scan_socket_inodes,
}

-- Whether a descriptor is a socket's of that inode.
abbrev holds : ℕ → Option ℕ → Option ℕ → Option ℕ
holds inode pid none = none
holds inode pid (some found) = if found == inode then pid else none

-- The process, if one of its descriptors is the socket.
unfoldable holder : ℕ → ℕ → List (Option Text) → Option ℕ
holder inode pid [] = none
holder inode pid (target ∷ fds) =
    or_else (holds inode (some pid) (target >>= socket_inode_of)) (holder inode pid fds)

abbrev holder_of : ℕ → Option ℕ → Option (List (Option Text)) → Option ℕ
holder_of inode none fds = none
holder_of inode (some pid) none = none
holder_of inode (some pid) (some fds) = holder inode pid fds

-- The first process, in the order of the listing, that has the socket open.
unfoldable pub first_holder : ℕ → List ProcEntry → Option ℕ
unfolding holder
first_holder inode [] = none
first_holder inode (e ∷ es) =
    or_else (holder_of inode (pid_of_name e.name) e.fds) (first_holder inode es)

get-or_insert :
    (inode q pid : ℕ) (m : Inodes)
    → inode_get q (or_insert inode pid m)
      ≡ or_else (inode_get q m) (if inode == q then some pid else none)
unfolding inode_get or_insert
get-or_insert inode q pid [] = refl
get-or_insert inode q pid ((k, p) ∷ m) = ground (arith, get-or_insert inode q pid m)

or_else_assoc : (a b c : Option ℕ) → or_else (or_else a b) c ≡ or_else a (or_else b c)
or_else_assoc none b c = refl
or_else_assoc (some a) b c = refl

or_else-none : (a : Option ℕ) → or_else a none ≡ a
or_else-none none = refl
or_else-none (some a) = refl

get-insert_found :
    (q pid : ℕ) (found : Option ℕ) (m : Inodes)
    → inode_get q (insert_found pid found m) ≡ or_else (inode_get q m) (holds q (some pid) found)
get-insert_found q pid none m = rw (or_else-none (inode_get q m))
get-insert_found q pid (some inode) m = get-or_insert inode q pid m

get-scan_fds :
    (q pid : ℕ) (fds : List (Option Text)) (m : Inodes)
    → inode_get q (scan_fds pid fds m) ≡ or_else (inode_get q m) (holder q pid fds)
unfolding scan_fds holder
get-scan_fds q pid [] m = rw (or_else-none (inode_get q m))
get-scan_fds q pid (target ∷ fds) m =
    get-scan_fds q pid fds _
    ∙ ap (λ o. or_else o (holder q pid fds)) (get-insert_found q pid (target >>= socket_inode_of) m)
    ∙ or_else_assoc (inode_get q m) (holds q (some pid) (target >>= socket_inode_of))
        (holder q pid fds)

get-scan_entry :
    (q : ℕ) (pid : Option ℕ) (fds : Option (List (Option Text))) (m : Inodes)
    → inode_get q (scan_entry pid fds m) ≡ or_else (inode_get q m) (holder_of q pid fds)
get-scan_entry q none fds m = rw (or_else-none (inode_get q m))
get-scan_entry q (some pid) none m = rw (or_else-none (inode_get q m))
get-scan_entry q (some pid) (some fds) m = get-scan_fds q pid fds m

get-scan_entries :
    (q : ℕ) (es : List ProcEntry) (m : Inodes)
    → inode_get q (scan_entries es m) ≡ or_else (inode_get q m) (first_holder q es)
unfolding scan_entries first_holder
get-scan_entries q [] m = rw (or_else-none (inode_get q m))
get-scan_entries q (e ∷ es) m =
    get-scan_entries q es _
    ∙ ap (λ o. or_else o (first_holder q es)) (get-scan_entry q (pid_of_name e.name) e.fds m)
    ∙ or_else_assoc (inode_get q m) (holder_of q (pid_of_name e.name) e.fds) (first_holder q es)

-- The map of `scan_socket_inodes` takes an inode to the first process, in the order in which
-- `/proc` lists them, that has a readable descriptor on that socket, and to nothing if none has.
pub get-scan_socket_inodes :
    (inode : ℕ) (es : List ProcEntry)
    → inode_get inode (scan_socket_inodes (some es)) ≡ first_holder inode es
unfolding scan_socket_inodes inode_get
get-scan_socket_inodes inode es = get-scan_entries inode es []

-- Two calls of `inode_to_pid` for one inode, the first without a map: the second answers with the
-- process that held the socket at the first call, whatever `/proc` holds then, and only if there was
-- none with the one that holds it now.
pub inode_to_pid-twice :
    (c : ProcessCache) (inode : ℕ) (es es' : List ProcEntry)
    → c.inodes ≡ none
    → (inode_to_pid (some es') (inode_to_pid (some es) c inode).0 inode).1
      ≡ or_else (first_holder inode es) (first_holder inode es')
unfolding inode_to_pid
inode_to_pid-twice c inode es es' fresh =
    let now = get-scan_socket_inodes inode es in
    let later = get-scan_socket_inodes inode es' in ground arith
