-- ===== src/Proxy/Connect.antt =====
-- src/proxy.rs: `connect_via_proxy`.
use ace_tun.Base.{Bool, if◌then◌else◌}
use ace_tun.Config.{ProxyConfig}
use ace_tun.Config.Kind.{ProxyType}
use ace_tun.Proxy.Target.{Target}
use ace_tun.Proxy.Stream.{connect_failed, timed_out, IoResult, err, Conn}
use ace_tun.Proxy.Socks5.{socks5_connect}
use ace_tun.Proxy.Http.{HttpCrates, HttpStream, http_connect}

-- What the network makes of a connection to the proxy: whether it is made, and the stream, as each
-- of the two protocols reads it.
pub record Upstream : Type 0 where
  pub connects : Bool
  pub http_stream : HttpStream
  pub socks_stream : Conn
  -- Whether connection and handshake end within the time limit.
  pub in_time : Bool

unfoldable pub connect_via_proxy_inner :
    HttpCrates → Upstream → ProxyConfig → Target → IoResult (Unit {0})
unfolding socks5_connect http_connect
connect_via_proxy_inner lib net cfg dest =
    if net.connects
    then elim cfg.proxy_type [
      | ProxyType.http ↦ (http_connect lib cfg dest net.http_stream).0
      | ProxyType.socks5 ↦ (socks5_connect cfg dest net.socks_stream).0
    ]
    else err connect_failed

unfoldable pub connect_via_proxy :
    HttpCrates → Upstream → ProxyConfig → Target → IoResult (Unit {0})
unfolding connect_via_proxy_inner
connect_via_proxy lib net cfg dest =
    if net.in_time then connect_via_proxy_inner lib net cfg dest else err timed_out
