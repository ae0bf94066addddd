-- ===== src/Platform/Macos/Device.antt =====
-- src/platform/macos/adapter.rs: `open_device`, which attaches a utun interface.
use ace_tun.Base.{ℕ, Bool, true, false, is_none, not, if◌then◌else◌, ◌==◌}
use ace_tun.Text.{Text, codes}
use ace_tun.Error.{Error, Result, ok, err, ◌>>=◌}
use ace_tun.Platform.Linux.Process.{strip_prefix}

-- `io::ErrorKind`, as far as the code tells the kinds apart.
pub data Kind : Type 0 where
  permission_denied other_kind : Kind

-- What a system call gives, or how it fails.
pub data Io (A : Type 0) : Type 0 where
  done : A → Io A
  failed : Kind → Io A

-- The system calls of `open_device`.
pub record Utun : Type 0 where
  pub socket : Io (Unit {0})
  -- `CTLIOCGINFO`: the id of the kernel control of this name.
  pub control_id : Text → Io ℕ
  -- `connect` to the control of an id, with a unit.
  pub connect : ℕ → ℕ → Io (Unit {0})
  -- `UTUN_OPT_IFNAME`.
  pub interface_name : Io Text
  pub set_nonblocking : Bool
  pub if_nametoindex : Text → ℕ

abbrev pub is_privilege_error : Kind → Bool
is_privilege_error permission_denied = true
is_privilege_error other_kind = false

abbrev pub or_netcfg : {A : Type 0} → Text → Io A → Result A
or_netcfg op (done a) = ok a
or_netcfg op (failed kind) = err (Error.net_config op)

abbrev pub or_privilege : {A : Type 0} → Text → Io A → Result A
or_privilege op (done a) = ok a
or_privilege op (failed kind) =
    err (if is_privilege_error kind then Error.not_elevated else Error.net_config op)

abbrev pub ensure : Text → Bool → Result (Unit {0})
ensure op true = ok tt
ensure op false = err (Error.net_config op)

-- Unit 0 lets the kernel choose.
unfoldable pub open_device : Utun → Result ℕ
unfolding strip_prefix
open_device u = do
  made ← or_privilege (codes "socket(PF_SYSTEM)") u.socket
  id ← or_netcfg (codes "CTLIOCGINFO") (u.control_id (codes "com.apple.net.utun_control"))
  joined ← or_privilege (codes "connect(utun_control)") (u.connect id 0)
  name ← or_netcfg (codes "getsockopt(UTUN_OPT_IFNAME)") u.interface_name
  named ← ensure (codes "UTUN_OPT_IFNAME") (not (is_none (strip_prefix (codes "utun") name)))
  nonblocking ← ensure (codes "fcntl(O_NONBLOCK)") u.set_nonblocking
  let ifindex = u.if_nametoindex name
  indexed ← ensure (codes "if_nametoindex") (not (ifindex == 0))
  ok ifindex
