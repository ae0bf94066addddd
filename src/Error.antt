-- ===== src/Error.antt =====
-- src/error.rs. The sources of the operating system and of parsers are left out of an error.
use ace_tun.Text.{Text}

pub data Error : Type 0 where
  invalid_address : Text → Error
  config : Text → Error
  missing_proxy_config : Error
  wintun_load : Text → Error
  adapter_create : Text → Text → Error
  session_start : Text → Error
  net_config : Text → Error
  not_elevated : Error
  already_running : Error
  not_running : Error
  io : Text → Error

pub data Result {ℓ} (A : Type ℓ) : Type ℓ where
  ok : A → Result A
  err : Error → Result A

infixl 5 ◌>>=◌
abbrev pub ◌>>=◌ {ℓ κ} : {A : Type ℓ} {B : Type κ} → Result A → (A → Result B) → Result B
ok a >>= f = f a
err e >>= f = err e
