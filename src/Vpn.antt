-- ===== src/Vpn.antt =====
-- include/proximight/pmx_vpn.h: a tunnel's configuration as the profile keeps it.
use proxi_might.Prelude.{ℕ, Bool, true, false, List, []}
use proxi_might.Prelude.Bytes.{Bytes, codes}
use proxi_might.Prelude.Decimal.{ℤ, pos}
pub mod Text
pub mod WireGuard
pub mod OpenVpn
pub mod Blocks
pub mod Endpoints
pub mod Secrets
pub mod Load
pub mod Tests

pub data VpnKind : Type 0 where
  wireguard openvpn : VpnKind

pub record VpnEndpoint : Type 0 where
  pub host : Bytes
  pub port : ℕ
  pub udp : Bool

-- `endpoints` is the part of the source's array below `endpoint_count`.
pub record Vpn : Type 0 where
  pub id : ℕ
  pub label : Bytes
  pub kind : VpnKind
  pub enabled : Bool
  pub config_path : Bytes
  pub endpoints : List VpnEndpoint
  pub endpoints_truncated : Bool
  pub dns : Bytes
  pub mtu : ℤ
  pub address : Bytes
  pub allowed_ips : Bytes
  pub peer_public_key : Bytes
  pub persistent_keepalive : ℤ
  pub cipher : Bytes
  pub auth_digest : Bytes
  pub dev : Bytes
  pub has_private_key : Bool
  pub has_preshared_key : Bool
  pub has_inline_secrets : Bool
  pub requires_user_pass : Bool
  pub full_tunnel : Bool

-- pmx_vpn_init
unfoldable pub init : Vpn
init = record {
  id = 0;
  label = codes "New VPN";
  kind = wireguard;
  enabled = true;
  config_path = [];
  endpoints = [];
  endpoints_truncated = false;
  dns = [];
  mtu = pos 0;
  address = [];
  allowed_ips = [];
  peer_public_key = [];
  persistent_keepalive = pos 0;
  cipher = [];
  auth_digest = [];
  dev = [];
  has_private_key = false;
  has_preshared_key = false;
  has_inline_secrets = false;
  requires_user_pass = false;
  full_tunnel = false;
}
