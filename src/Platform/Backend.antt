-- ===== src/Platform/Backend.antt =====
-- src/platform/mod.rs: `Backend::create`, over a state of the system.
use ace_tun.Base.{Bool, not, if◌then◌else◌}
use ace_tun.Error.{Error, Result, err}

-- `create_privileged` is called only with privileges.
unfoldable pub create : {S A : Type 0} → Bool → (S → S × Result A) → S → S × Result A
create is_privileged create_privileged s =
    if not is_privileged then (s, err Error.not_elevated) else create_privileged s
