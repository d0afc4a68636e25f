-- ===== src/Vpn/WireGuard.antt =====
-- src/core/pmx_vpn.c: endpoints, the guess of a configuration's kind, and the WireGuard parser.
use proxi_might.Prelude.{
  ℕ, Bool, true, ◌||◌, Option, none, some, List, [], ◌∷◌, ◌++◌, leb, ◌==◌, if◌then◌else◌, length,
}
use proxi_might.Prelude.Bytes.{Bytes, codes, strlcpy}
use proxi_might.Status.{Status, ok, err_parse}
use proxi_might.Vpn.{Vpn, VpnKind, wireguard, openvpn, init}
use proxi_might.Vpn.Text.{
  trim, ci_eq, strip_comment, raw_lines, cut_line, split_first, starts_with, contains, number,
  parse_hostport, skip_bom, allowed_ips_is_full_tunnel,
}

abbrev pub max_vpn_endpoints : ℕ
max_vpn_endpoints = 8

abbrev pub max_host : ℕ
max_host = 256

unfoldable pub add_endpoint : Vpn → Bytes → ℕ → Bool → Vpn
add_endpoint v [] port udp = v
add_endpoint v (c ∷ host) port udp =
    if leb max_vpn_endpoints (length v.endpoints)
    then record v { endpoints_truncated = true }
    else record v {
      endpoints =
          v.endpoints
          ++ record { host = strlcpy [] (c ∷ host) max_host; port = port; udp = udp } ∷ [];
    }

-- pmx_vpn_sniff; `none` is PMX_ERR_PARSE
unfoldable pub sniff : Bytes → Option VpnKind
unfolding skip_bom contains starts_with
sniff text =
    let t = skip_bom text in
    if contains (codes "[Interface]") t || contains (codes "[interface]") t
    then some wireguard
    else if contains (codes "remote ") t
        || contains (10 ∷ codes "client") t
        || starts_with (codes "client") t
        || contains (codes "dev tun") t
        || contains (codes "dev tap") t
        || contains (codes "proto ") t
    then some openvpn
    else none

pub data Section : Type 0 where
  sec_none sec_iface sec_peer : Section

-- A line's part before the first `=`, and the part behind it, both trimmed.
abbrev pub trim_both : Option (Bytes × Bytes) → Option (Bytes × Bytes)
trim_both none = none
trim_both (some (key, val)) = some (trim key, trim val)

unfoldable pub key_value : Bytes → Option (Bytes × Bytes)
unfolding split_first trim
key_value line = trim_both (split_first b'=' line)

abbrev pub add_found : Vpn → Option (Bytes × ℕ) → Vpn
add_found v none = v
add_found v (some (host, port)) = add_endpoint v host port true

unfoldable pub iface_entry : Vpn → Bytes → Bytes → Vpn
iface_entry v key val =
    if ci_eq key (codes "PrivateKey")
    then record v { has_private_key = true }
    else if ci_eq key (codes "Address")
    then record v { address = strlcpy [] val 256 }
    else if ci_eq key (codes "DNS")
    then record v { dns = strlcpy [] val 256 }
    else if ci_eq key (codes "MTU")
    then record v { mtu = number val }
    else v

unfoldable pub peer_entry : Vpn → Bytes → Bytes → Vpn
unfolding parse_hostport allowed_ips_is_full_tunnel add_endpoint
peer_entry v key val =
    if ci_eq key (codes "PublicKey")
    then record v { peer_public_key = strlcpy [] val 64 }
    else if ci_eq key (codes "PresharedKey")
    then record v { has_preshared_key = true }
    else if ci_eq key (codes "AllowedIPs")
    then record v {
      allowed_ips = strlcpy [] val 256;
      full_tunnel = v.full_tunnel || allowed_ips_is_full_tunnel val;
    }
    else if ci_eq key (codes "Endpoint")
    then add_found v (parse_hostport val max_host)
    else if ci_eq key (codes "PersistentKeepalive")
    then record v { persistent_keepalive = number val }
    else v

unfoldable pub wg_entry : Section → Vpn → Option (Bytes × Bytes) → Vpn
unfolding iface_entry peer_entry
wg_entry sec v none = v
wg_entry sec v (some ([], val)) = v
wg_entry sec_none v (some (k ∷ key, val)) = v
wg_entry sec_iface v (some (k ∷ key, val)) = iface_entry v (k ∷ key) val
wg_entry sec_peer v (some (k ∷ key, val)) = peer_entry v (k ∷ key) val

unfoldable pub section_of : Bytes → Section
unfolding ci_eq
section_of line =
    if ci_eq line (codes "[Interface]")
    then sec_iface
    else if ci_eq line (codes "[Peer]")
    then sec_peer
    else sec_none

-- A line with its comment and the blanks about it taken off.
unfoldable pub clean_line : Bytes → Bytes
unfolding strip_comment trim
clean_line l = trim (strip_comment (cut_line l) true)

unfoldable pub wg_clean : Section × Vpn → Bytes → Section × Vpn
unfolding section_of key_value wg_entry
wg_clean (sec, v) [] = (sec, v)
wg_clean (sec, v) (c ∷ line) =
    if c == b'[' then (section_of (c ∷ line), v) else (sec, wg_entry sec v (key_value (c ∷ line)))

-- One round of the loop.
unfoldable pub wg_line : Section × Vpn → Bytes → Section × Vpn
unfolding wg_clean clean_line
wg_line st l = wg_clean st (clean_line l)

unfoldable pub wg_lines : Section × Vpn → List Bytes → Section × Vpn
unfolding wg_line
wg_lines st [] = st
wg_lines st (l ∷ ls) = wg_lines (wg_line st l) ls

abbrev pub some_endpoint : Vpn → Status
some_endpoint v = if length v.endpoints == 0 then err_parse else ok

-- pmx_vpn_parse_wireguard
unfoldable pub parse_wireguard : Bytes → Vpn × Status
unfolding init wg_lines raw_lines skip_bom
parse_wireguard text =
    let (sec, v) =
      wg_lines (sec_none, record init { kind = wireguard }) (raw_lines (skip_bom text)) in
    (v, some_endpoint v)
