-- ===== src/Vpn/Load.antt =====
-- src/core/pmx_vpn.c: a configuration from its file, the vendor's client, and the validation.
pub mod Valid
use proxi_might.Prelude.{
  inl, inr, ◌⊎◌, ℕ, ◌+◌, ◌-◌, ◌≡◌, Bool, true, false, ◌&&◌, ◌||◌, not, Option, none, some, List, [],
  ◌∷◌, ◌++◌, ◌==◌, ltb, if◌then◌else◌, length, take,
}
use proxi_might.Prelude.Bytes.{Bytes, codes, strlcpy}
use proxi_might.Prelude.Decimal.{decimal}
use proxi_might.Status.{is_ok, Status, ok, err_io, err_invalid_arg, err_parse, err_not_found}
use proxi_might.Rule.Patterns.{is_empty}
use proxi_might.Vpn.{Vpn, VpnKind, VpnEndpoint, wireguard, openvpn}
use proxi_might.Vpn.Text.{split_first, split_last, up_to}
use proxi_might.Vpn.WireGuard.{sniff, parse_wireguard}
use proxi_might.Vpn.OpenVpn.{parse_openvpn}

abbrev pub max_label : ℕ
max_label = 64

abbrev pub max_path : ℕ
max_path = 1024

unfoldable pub kind_str : VpnKind → Bytes
kind_str wireguard = codes "WireGuard"
kind_str openvpn = codes "OpenVPN"

-- The text behind a separator, if it starts later than `base`.
abbrev pub later_base : Bytes → Option (Bytes × Bytes) → Bytes
later_base base none = base
later_base base (some (before, after)) = if ltb (length after) (length base) then after else base

abbrev pub without_extension : Bytes → Option (Bytes × Bytes) → Bytes
without_extension out none = out
without_extension out (some ([], after)) = out
without_extension out (some (c ∷ before, after)) = c ∷ before

abbrev pub cut_extension : Bytes → Bytes
cut_extension out = without_extension out (split_last b'.' out)

-- basename_of, into a buffer of `cap` bytes
unfoldable pub basename_of : Bytes → ℕ → Bytes
unfolding split_last strlcpy
basename_of path cap =
    let base = later_base path (split_last b'/' path) in
    cut_extension (strlcpy [] (later_base base (split_last 92 path)) cap)

-- read_all; the file's bytes are the argument, `none` where it cannot be opened or measured
abbrev pub read_all : Option Bytes → Bytes ⊎ Status
read_all none = inr err_io
read_all (some bytes) = inl (up_to 0 bytes)

unfoldable pub parse_as : VpnKind → Bytes → Vpn × Status
unfolding parse_wireguard parse_openvpn
parse_as wireguard text = parse_wireguard text
parse_as openvpn text = parse_openvpn text

unfoldable pub named : Bytes → Vpn → Vpn
unfolding basename_of kind_str strlcpy
named path v =
    let base = basename_of path max_label in
    record v {
      config_path = strlcpy [] path max_path;
      label = if is_empty base then strlcpy [] (kind_str v.kind) max_label else base;
    }

abbrev pub name_parsed : Bytes → Vpn × Status → Vpn × Status
name_parsed path (v, s) = if is_ok s then (named path v, s) else (v, s)

abbrev pub load_kind : Bytes → Bytes → Vpn → Option VpnKind → Vpn × Status
load_kind path text out none = (out, err_parse)
load_kind path text out (some kind) = name_parsed path (parse_as kind text)

abbrev pub load_text : Bytes → Vpn → Bytes ⊎ Status → Vpn × Status
load_text path out (inr s) = (out, s)
load_text path out (inl text) = load_kind path text out (sniff text)

-- pmx_vpn_load_file; `contents` is what the file system holds at each path
unfoldable pub load_file : (Bytes → Option Bytes) → Bytes → Vpn → Vpn × Status
unfolding sniff parse_as named split_first
load_file contents path out = load_text path out (read_all (contents path))

pub record Client : Type 0 where
  pub found : Bool
  pub path : Bytes

abbrev pub wg_paths : List Bytes
wg_paths =
    codes "C:\\Program Files\\WireGuard\\wireguard.exe"
    ∷ codes "C:\\Program Files (x86)\\WireGuard\\wireguard.exe"
    ∷ codes "/usr/bin/wg-quick"
    ∷ codes "/usr/local/bin/wg-quick"
    ∷ codes "/opt/homebrew/bin/wg-quick"
    ∷ []

abbrev pub ovpn_paths : List Bytes
ovpn_paths =
    codes "C:\\Program Files\\OpenVPN\\bin\\openvpn.exe"
    ∷ codes "C:\\Program Files (x86)\\OpenVPN\\bin\\openvpn.exe"
    ∷ codes "/usr/sbin/openvpn"
    ∷ codes "/usr/bin/openvpn"
    ∷ codes "/opt/homebrew/sbin/openvpn"
    ∷ []

unfoldable pub client_paths : VpnKind → List Bytes
client_paths wireguard = wg_paths
client_paths openvpn = ovpn_paths

-- file_exists; `opens` tells which paths can be opened
abbrev pub file_exists : (Bytes → Bool) → Bytes → Bool
file_exists opens path = not (is_empty path) && opens path

abbrev pub found_at : Bytes → Client × Status
found_at path = (record { found = true; path = strlcpy [] path max_path }, ok)

unfoldable pub first_client : (Bytes → Bool) → List Bytes → Client × Status
unfolding strlcpy
first_client opens [] = (record { found = false; path = [] }, err_not_found)
first_client opens (p ∷ ps) =
    let rest = first_client opens ps in if file_exists opens p then found_at p else rest

-- pmx_vpn_client_detect; a NULL override is the empty one
unfoldable pub client_detect : (Bytes → Bool) → VpnKind → Bytes → Client × Status
unfolding first_client client_paths strlcpy
client_detect opens kind override_path =
    if file_exists opens override_path
    then found_at override_path
    else first_client opens (client_paths kind)

unfoldable pub command_text : VpnKind → Bytes → Bytes → Bytes
unfolding decimal
command_text wireguard exe path =
    codes "\"" ++ exe ++ codes "\" /installtunnelservice \"" ++ path ++ codes "\""
command_text openvpn exe path =
    codes "\""
    ++ exe
    ++ codes "\" --config \""
    ++ path
    ++ codes "\" --management 127.0.0.1 "
    ++ decimal 25340

-- pmx_vpn_bringup_command, for a client that is not NULL and a buffer of `cap` bytes, not 0
unfoldable pub bringup_command : Vpn → Client → ℕ → Bytes × Status
unfolding command_text
bringup_command v client cap =
    let exe = if client.found then client.path else codes "<vpn client>" in
    if is_empty v.config_path
    then ([], err_invalid_arg)
    else (take (cap - 1) (command_text v.kind exe v.config_path), ok)

unfoldable pub lacks_address : List VpnEndpoint → Bool
lacks_address [] = false
lacks_address (e ∷ es) =
    let rest = lacks_address es in if is_empty e.host || e.port == 0 then true else rest

unfoldable pub is_wireguard : VpnKind → Bool
is_wireguard wireguard = true
is_wireguard openvpn = false

abbrev pub dash : Bytes
dash = 226 ∷ 128 ∷ 148 ∷ []

-- pmx_vpn_validate; `why` is the buffer's text before, and `why_size` its size
unfoldable pub vpn_validate : Vpn → Bytes → ℕ → Status × Bytes
unfolding lacks_address is_wireguard strlcpy
vpn_validate v why why_size =
    let fail : Bytes → Status × Bytes = λ text. (err_invalid_arg, strlcpy why text why_size) in
    if length v.endpoints == 0
    then fail (codes "no remote endpoint in the config")
    else if lacks_address v.endpoints
    then fail (codes "an endpoint is missing a host or port")
    else if is_wireguard v.kind && is_empty v.peer_public_key
    then fail (codes "WireGuard peer has no PublicKey")
    else if is_wireguard v.kind && not v.has_private_key
    then fail (codes "WireGuard [Interface] has no PrivateKey")
    else if is_empty v.config_path
    then fail
        (codes "no config file path " ++ dash ++ codes " the VPN client needs the original file")
    else (ok, if why_size == 0 then why else [])
