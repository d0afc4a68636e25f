-- ===== src/Vpn/Tests.antt =====
-- src/core/pmx_vpn.c: runs of the parsers on small files.
use proxi_might.Prelude.{true, ℕ, ◌≡◌, refl, false, Option, some, List, [], ◌∷◌, ◌++◌, ◌↔◌, map}
use proxi_might.Prelude.Bytes.{Bytes, codes, isspace, tolower, strlcpy, byte_eq}
use proxi_might.Prelude.Decimal.{strtol}
use proxi_might.Status.{ok}
use proxi_might.Rule.Patterns.{trim_front, trim_back}
use proxi_might.Vpn.{VpnEndpoint, openvpn, init}
use proxi_might.Vpn.Text.{
  allowed_ips_is_full_tunnel, raw_lines, skip_bom, trim, ci_eq, strip_comment, split_first,
}
use proxi_might.Vpn.WireGuard.{parse_wireguard, key_value, clean_line}
use proxi_might.Vpn.OpenVpn.{ovpn_lines, parse_openvpn, start_ovpn, closed_tag, opened_tag}
use proxi_might.Vpn.Blocks.{block_skipped, inside}
use proxi_might.Vpn.Endpoints.{IsUsable}
use proxi_might.Vpn.Secrets.{parse_wireguard-secret}
use proxi_might.Vpn.Load.{load_file, parse_as, vpn_validate, basename_of}
use proxi_might.Vpn.Load.Valid.{parse_as-IsUsable, load_file-vpn_validate, lacks_keys}

abbrev nl : Bytes
nl = 10 ∷ []

abbrev wg_with : Bytes → Bytes
wg_with key =
    codes "[Interface]"
    ++ nl
    ++ codes "PrivateKey = "
    ++ key
    ++ nl
    ++ codes "[Peer]"
    ++ nl
    ++ codes "Endpoint = 192.0.2.1:51820"
    ++ nl

abbrev ovpn_text : Bytes
ovpn_text =
    codes "client"
    ++ nl
    ++ codes "remote vpn.example 443 tcp"
    ++ nl
    ++ codes "remote other.example"
    ++ nl

host_ports : List VpnEndpoint → List (Bytes × ℕ)
host_ports es = map (λ e. (e.host, e.port)) es

reads_remotes :
    host_ports (parse_openvpn ovpn_text).0.endpoints
    ≡ (codes "vpn.example", 443) ∷ (codes "other.example", 1194) ∷ []
unfolding parse_openvpn host_ports strlcpy strtol byte_eq
reads_remotes = refl

block_skipped_example :
    ovpn_lines start_ovpn
      (codes "<ca>" ∷ (codes "remote evil.example 1" ∷ []) ++ codes "</ca>" ∷ codes "dev tun" ∷ [])
    ≡ ovpn_lines (record (inside start_ovpn (codes "ca")) { skipping = [] }) (codes "dev tun" ∷ [])
unfolding opened_tag closed_tag trim trim_front trim_back isspace split_first strlcpy byte_eq
block_skipped_example =
    block_skipped start_ovpn (codes "<ca>") (codes "</ca>") (codes "ca")
      (codes "remote evil.example 1" ∷ []) (codes "dev tun" ∷ []) refl refl (λ h. cc) refl
      (λ h. cc, tt) refl

parse_as-IsUsable_example : IsUsable (parse_as openvpn ovpn_text)
parse_as-IsUsable_example = parse_as-IsUsable openvpn ovpn_text

parse_wireguard-secret_example :
    parse_wireguard (wg_with (codes "c2VjcmV0")) ≡ parse_wireguard (wg_with (codes "b3RoZXI="))
unfolding raw_lines skip_bom key_value clean_line strip_comment trim trim_front trim_back isspace
    split_first ci_eq tolower
parse_wireguard-secret_example =
    parse_wireguard-secret (wg_with (codes "c2VjcmV0")) (wg_with (codes "b3RoZXI="))
      (codes "[Interface]" ∷ []) (codes "[Peer]" ∷ codes "Endpoint = 192.0.2.1:51820" ∷ [])
      (codes "PrivateKey = c2VjcmV0") (codes "PrivateKey = b3RoZXI=") (codes "PrivateKey")
      (codes "c2VjcmV0") (codes "b3RoZXI=") refl refl refl refl refl

abbrev disk : Bytes → Option Bytes
disk path = some ovpn_text

abbrev home_path : Bytes
home_path = codes "/etc/vpn/home.ovpn"

load_file-vpn_validate_example :
    ((vpn_validate (load_file disk home_path init).0 [] 192).0 ≡ ok)
    ↔ (lacks_keys (load_file disk home_path init).0 ≡ false)
unfolding load_file
load_file-vpn_validate_example =
    load_file-vpn_validate disk home_path init (load_file disk home_path init).0 [] 192 refl
      (λ h. cc)

takes_base_name : basename_of (codes "C:\\vpn/my.home.conf") 64 ≡ codes "my.home"
unfolding basename_of
takes_base_name = refl

-- The upper half of the IPv6 addresses alone.
half_is_full : allowed_ips_is_full_tunnel (codes "8000::/1") ≡ true
unfolding allowed_ips_is_full_tunnel
half_is_full = refl

-- A file with the inline block of an empty tag.
abbrev hidden_block : Bytes
hidden_block = codes "<>" ++ nl ++ codes "remote hidden.example 443" ++ nl ++ codes "</>" ++ nl

reads_hidden :
    host_ports (parse_openvpn hidden_block).0.endpoints ≡ (codes "hidden.example", 443) ∷ []
unfolding parse_openvpn host_ports strlcpy strtol byte_eq
reads_hidden = refl
