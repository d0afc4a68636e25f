-- ===== src/Proxy.antt =====
-- include/proximight/pmx_proxy.h and src/core/pmx_proxy.c: a proxy and its defaults.
use proxi_might.Prelude.{
  ℕ, Bool, true, false, ◌&&◌, Option, none, some, List, [], ◌∷◌, ◌==◌, if◌then◌else◌,
}
use proxi_might.Prelude.Bytes.{Bytes, codes, strlcpy}
use proxi_might.Status.{Status, ok, err_invalid_arg, err_unsupported}
use proxi_might.Rule.Patterns.{is_empty}
use proxi_might.Vpn.Text.{ci_eq}

pub data ProxyType : Type 0 where
  socks5 socks4 socks4a http https : ProxyType

pub record Proxy : Type 0 where
  pub id : ℕ
  pub label : Bytes
  pub type : ProxyType
  pub host : Bytes
  pub port : ℕ
  pub use_auth : Bool
  pub username : Bytes
  pub password : Bytes
  pub enabled : Bool

-- pmx_proxy_init
unfoldable pub init : Proxy
init = record {
  id = 0;
  label = codes "New proxy";
  type = socks5;
  host = [];
  port = 1080;
  use_auth = false;
  username = [];
  password = [];
  enabled = true;
}

-- pmx_proxy_type_str
unfoldable pub type_str : ProxyType → Bytes
type_str socks5 = codes "SOCKS5"
type_str socks4 = codes "SOCKS4"
type_str socks4a = codes "SOCKS4a"
type_str http = codes "HTTP"
type_str https = codes "HTTPS"

-- pmx_proxy_type_short
unfoldable pub type_short : ProxyType → Bytes
type_short socks5 = codes "socks5"
type_short socks4 = codes "socks4"
type_short socks4a = codes "socks4a"
type_short http = codes "http"
type_short https = codes "https"

-- The types in the order of the enumeration.
abbrev pub proxy_types : List ProxyType
proxy_types = socks5 ∷ socks4 ∷ socks4a ∷ http ∷ https ∷ []

unfoldable pub first_named : Bytes → List ProxyType → Option ProxyType
unfolding type_short ci_eq
first_named s [] = none
first_named s (t ∷ ts) =
    let rest = first_named s ts in if ci_eq s (type_short t) then some t else rest

-- pmx_proxy_type_from_str; `none` where it returns false
unfoldable pub type_from_str : Bytes → Option ProxyType
unfolding first_named
type_from_str s = first_named s proxy_types

-- pmx_proxy_type_default_port
unfoldable pub default_port : ProxyType → ℕ
default_port socks5 = 1080
default_port socks4 = 1080
default_port socks4a = 1080
default_port http = 8080
default_port https = 8443

unfoldable pub is_https : ProxyType → Bool
is_https https = true
is_https _ = false

-- pmx_proxy_validate; `why` is the buffer's text before, and `why_size` its size
unfoldable pub proxy_validate : Proxy → Bytes → ℕ → Status × Bytes
unfolding is_https strlcpy
proxy_validate p why why_size =
    let fail : Status → Bytes → Status × Bytes = λ code text. (code, strlcpy why text why_size) in
    if is_empty p.host
    then fail err_invalid_arg (codes "host is required")
    else if p.port == 0
    then fail err_invalid_arg (codes "port must be 1-65535")
    else if p.use_auth && is_empty p.username
    then fail err_invalid_arg (codes "username required when auth is on")
    else if is_https p.type
    then fail err_unsupported (codes "HTTPS proxy (TLS) not implemented yet")
    else (ok, if why_size == 0 then why else [])
