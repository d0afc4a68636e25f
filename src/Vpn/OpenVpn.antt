-- ===== src/Vpn/OpenVpn.antt =====
-- src/core/pmx_vpn.c: the OpenVPN parser.
use proxi_might.Prelude.{
  ℕ, zero, suc, Bool, true, false, ◌&&◌, ◌||◌, not, Option, none, some, List, [], ◌∷◌, leb, ◌==◌,
  if◌then◌else◌, length, map,
}
use proxi_might.Prelude.Bytes.{Bytes, codes, byte_eq, strlcpy}
use proxi_might.Status.{Status}
use proxi_might.Rule.Patterns.{is_empty}
use proxi_might.Vpn.{Vpn, VpnEndpoint, openvpn, init}
use proxi_might.Vpn.Text.{
  trim, ci_eq, strip_comment, raw_lines, cut_line, tokenize, split_first, up_to, number, to_port,
  skip_bom,
}
use proxi_might.Vpn.WireGuard.{add_endpoint, some_endpoint}

-- The parser's variables; `skipping` is empty outside a skipped block.
pub record Ovpn : Type 0 where
  pub out : Vpn
  pub default_udp : Bool
  pub default_port : ℕ
  pub skipping : Bytes

unfoldable pub is_secret_tag : Bytes → Bool
unfolding ci_eq
is_secret_tag tag =
    ci_eq tag (codes "key")
    || ci_eq tag (codes "tls-auth")
    || ci_eq tag (codes "tls-crypt")
    || ci_eq tag (codes "tls-crypt-v2")
    || ci_eq tag (codes "secret")
    || ci_eq tag (codes "pkcs12")

abbrev pub is_parsed_container_tag : Bytes → Bool
is_parsed_container_tag tag = byte_eq tag (codes "connection")

abbrev pub max_tag : ℕ
max_tag = 64

abbrev pub tag_text : Bytes → Bytes
tag_text s = up_to b'>' (strlcpy [] s max_tag)

-- The tag that a trimmed line closes, if it begins with `</`.
unfoldable pub closed_tag : Bytes → Option Bytes
unfolding split_first
closed_tag [] = none
closed_tag (a ∷ []) = none
closed_tag (a ∷ b ∷ s) = if a == b'<' && b == b'/' then some (tag_text s) else none

-- The tag that a trimmed line opens, if it begins with `<` and not with `</`.
unfoldable pub opened_tag : Bytes → Option Bytes
unfolding split_first
opened_tag [] = none
opened_tag (a ∷ []) = if a == b'<' then some [] else none
opened_tag (a ∷ b ∷ s) = if a == b'<' && not (b == b'/') then some (tag_text (b ∷ s)) else none

-- Inside a skipped block only its closing tag counts.
abbrev pub skip_line : Ovpn → Option Bytes → Ovpn
skip_line st none = st
skip_line st (some tag) = if byte_eq tag st.skipping then record st { skipping = [] } else st

unfoldable pub open_block : Ovpn → Bytes → Ovpn
unfolding is_secret_tag
open_block st tag = if is_parsed_container_tag tag then st else record st {
  out = record (st.out) { has_inline_secrets = st.out.has_inline_secrets || is_secret_tag tag };
  skipping = strlcpy [] tag max_tag;
}

unfoldable pub is_tcp : Bytes → Bool
unfolding ci_eq
is_tcp t =
    ci_eq t (codes "tcp")
    || ci_eq t (codes "tcp-client")
    || ci_eq t (codes "tcp4")
    || ci_eq t (codes "tcp6")

abbrev pub arg : List Bytes → ℕ → Bytes
arg [] i = []
arg (t ∷ ts) zero = t
arg (t ∷ ts) (suc i) = arg ts i

-- The directives, for at least one token.
unfoldable pub directive : Ovpn → List Bytes → Ovpn
unfolding add_endpoint is_tcp
directive st toks =
    let n = length toks in
    let v = st.out in
    let tok = arg toks in
    if ci_eq (tok 0) (codes "remote") && leb 2 n
    then record st {
      out =
          add_endpoint v (tok 1) (if leb 3 n then to_port (number (tok 2)) else 0)
            (if leb 4 n then not (is_tcp (tok 3)) else st.default_udp);
    }
    else if ci_eq (tok 0) (codes "proto") && leb 2 n
    then record st { default_udp = not (is_tcp (tok 1)) }
    else if ci_eq (tok 0) (codes "port") && leb 2 n
    then record st { default_port = to_port (number (tok 1)) }
    else if (ci_eq (tok 0) (codes "cipher") || ci_eq (tok 0) (codes "data-ciphers")) && leb 2 n
    then (if is_empty v.cipher
        then record st { out = record v { cipher = strlcpy [] (tok 1) 64 } }
        else st)
    else if ci_eq (tok 0) (codes "auth") && leb 2 n
    then record st { out = record v { auth_digest = strlcpy [] (tok 1) 64 } }
    else if ci_eq (tok 0) (codes "dev") && leb 2 n
    then record st { out = record v { dev = strlcpy [] (tok 1) 16 } }
    else if ci_eq (tok 0) (codes "auth-user-pass")
    then record st { out = record v { requires_user_pass = true } }
    else if ci_eq (tok 0) (codes "redirect-gateway")
    then record st { out = record v { full_tunnel = true } }
    else if ci_eq (tok 0) (codes "tun-mtu") && leb 2 n
    then record st { out = record v { mtu = number (tok 1) } }
    else if ci_eq (tok 0) (codes "dhcp-option") && leb 3 n && ci_eq (tok 1) (codes "DNS")
    then record st { out = record v { dns = strlcpy [] (tok 2) 256 } }
    else st

abbrev pub is_some {ℓ} : {A : Type ℓ} → Option A → Bool
is_some none = false
is_some (some a) = true

abbrev pub run_directive : Ovpn → List Bytes → Ovpn
run_directive st [] = st
run_directive st (t ∷ ts) = directive st (t ∷ ts)

-- A trimmed line outside a skipped block: an opening tag, a closing tag or a directive.
abbrev pub plain_line : Ovpn → Bytes → Option Bytes → Ovpn
plain_line st line (some tag) = open_block st tag
plain_line st line none =
    if is_some (closed_tag line)
    then st
    else run_directive st (tokenize (trim (strip_comment line true)) 8)

-- One round of the loop, on the trimmed line.
unfoldable pub trimmed_line : Ovpn → Bytes → Ovpn
unfolding closed_tag opened_tag open_block directive tokenize trim strip_comment
trimmed_line st line =
    if is_empty st.skipping
    then plain_line st line (opened_tag line)
    else skip_line st (closed_tag line)

unfoldable pub ovpn_line : Ovpn → Bytes → Ovpn
unfolding trimmed_line
ovpn_line st l = trimmed_line st (trim (cut_line l))

unfoldable pub ovpn_lines : Ovpn → List Bytes → Ovpn
unfolding ovpn_line
ovpn_lines st [] = st
ovpn_lines st (l ∷ ls) = ovpn_lines (ovpn_line st l) ls

abbrev pub with_port : ℕ → VpnEndpoint → VpnEndpoint
with_port default_port e =
    if e.port == 0 then record e { port = if default_port == 0 then 1194 else default_port } else e

abbrev pub start_ovpn : Ovpn
start_ovpn = record {
  out = record init { kind = openvpn };
  default_udp = true;
  default_port = 1194;
  skipping = [];
}

-- The result from the parser's variables at the end of the text.
abbrev pub finish_ovpn : Ovpn → Vpn × Status
finish_ovpn st =
    let v = record (st.out) { endpoints = map (with_port st.default_port) st.out.endpoints } in
    (v, some_endpoint v)

-- pmx_vpn_parse_openvpn
unfoldable pub parse_openvpn : Bytes → Vpn × Status
unfolding init ovpn_lines raw_lines skip_bom
parse_openvpn text = finish_ovpn (ovpn_lines start_ovpn (raw_lines (skip_bom text)))
