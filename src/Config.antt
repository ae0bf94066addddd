-- ===== src/Config.antt =====
-- src/config.rs: upstream proxies.
pub mod Kind
use ace_tun.Base.{ℕ, Bool, true, Option, none, some, ◌==◌, if◌then◌else◌, is_nil}
use ace_tun.Text.{Text, codes, trim}
use ace_tun.Error.{Result, ok, err, Error}
use Kind.{ProxyType}

pub record ProxyConfig : Type 0 where
  pub config_id : ℕ
  pub proxy_type : ProxyType
  pub host : Text
  pub port : ℕ
  pub username : Option Text
  pub password : Option Text
  pub send_domain_to_proxy : Bool

unfoldable pub http : Text → ℕ → ProxyConfig
http host port = record {
  config_id = 0;
  proxy_type = ProxyType.http;
  host = host;
  port = port;
  username = none;
  password = none;
  send_domain_to_proxy = true;
}

unfoldable pub socks5 : Text → ℕ → ProxyConfig
socks5 host port = record {
  config_id = 0;
  proxy_type = ProxyType.socks5;
  host = host;
  port = port;
  username = none;
  password = none;
  send_domain_to_proxy = true;
}

unfoldable pub with_auth : ProxyConfig → Text → Text → ProxyConfig
with_auth c username password = record c { username = some username; password = some password }

unfoldable pub resolve_on_proxy : ProxyConfig → Bool → ProxyConfig
resolve_on_proxy c enable = record c { send_domain_to_proxy = enable }

unfoldable pub validate : ProxyConfig → Result (Unit {0})
unfolding trim
validate c =
    if is_nil (trim c.host)
    then err (Error.config (codes "proxy host must not be empty"))
    else if c.port == 0
    then err (Error.config (codes "proxy port must not be zero"))
    else ok tt
