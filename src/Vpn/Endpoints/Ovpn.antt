-- ===== src/Vpn/Endpoints/Ovpn.antt =====
-- src/core/pmx_vpn.c: the endpoints of an OpenVPN file.
use proxi_might.Prelude.{
  ap, ℕ, suc, ◌≤◌, ◌≡◌, refl, Bool, true, false, Option, none, some, List, [], ◌∷◌, ◌&&◌, ◌||◌,
  ◌==◌, leb, if◌then◌else◌, length, All, arith, map, on_branches,
}
use proxi_might.Prelude.Bytes.{Bytes, codes, byte_eq}
use proxi_might.Rule.Patterns.{is_empty}
use proxi_might.Vpn.{init, codes, Bytes, VpnEndpoint}
use proxi_might.Vpn.Text.{number, cut_line, trim, to_port, ci_eq}
use proxi_might.Vpn.OpenVpn.{
  start_ovpn, finish_ovpn, parse_openvpn, closed_tag, opened_tag, is_some, plain_line, trimmed_line,
  is_parsed_container_tag, arg, run_directive, skip_line, open_block, ovpn_line, with_port,
  ovpn_lines, Ovpn, directive,
}
use proxi_might.Vpn.Endpoints.{
  skip_bom, raw_lines, number, IsAddress, AreAddresses, to_port-le, add_endpoint-AreAddresses,
  HasAddresses, IsUsable, some_endpoint_iff,
}

-- The parser's variables, with addresses whose port may still be open.
abbrev Collects : Ovpn → Type 0
Collects st = HasAddresses 0 st.out × (st.default_port ≤ 65535)

remote_port-le : (b : Bool) (t : Bytes) → (if b then to_port (number t) else 0) ≤ 65535
remote_port-le true t = to_port-le (number t)
remote_port-le false t = omega arith

directive-Collects : (st : Ovpn) (toks : List Bytes) → Collects st → Collects (directive st toks)
unfolding directive
directive-Collects st toks (h, hp) =
    let n = length toks in
    let tok = arg toks in
    on_branches Collects (ci_eq (tok 0) (codes "remote") && leb 2 n) _ _
      (λ _. (
        add_endpoint-AreAddresses 0 st.out (tok 1) _ _ (omega arith)
            (remote_port-le (leb 3 n) (tok 2)) h,
        hp,
      ))
      (λ _.
        on_branches Collects (ci_eq (tok 0) (codes "proto") && leb 2 n) _ _ (λ _. (h, hp))
          (λ _.
            on_branches Collects (ci_eq (tok 0) (codes "port") && leb 2 n) _ _
              (λ _. (h, to_port-le (number (tok 1))))
              (λ _.
                on_branches Collects
                  ((ci_eq (tok 0) (codes "cipher") || ci_eq (tok 0) (codes "data-ciphers"))
                    && leb 2 n)
                  _ _
                  (λ _.
                    on_branches Collects (is_empty st.out.cipher) _ _ (λ _. (h, hp)) (λ _. (h, hp)))
                  (λ _.
                    on_branches Collects (ci_eq (tok 0) (codes "auth") && leb 2 n) _ _
                      (λ _. (h, hp))
                      (λ _.
                        on_branches Collects (ci_eq (tok 0) (codes "dev") && leb 2 n) _ _
                          (λ _. (h, hp))
                          (λ _.
                            on_branches Collects (ci_eq (tok 0) (codes "auth-user-pass")) _ _
                              (λ _. (h, hp))
                              (λ _.
                                on_branches Collects (ci_eq (tok 0) (codes "redirect-gateway")) _ _
                                  (λ _. (h, hp))
                                  (λ _.
                                    on_branches Collects
                                      (ci_eq (tok 0) (codes "tun-mtu") && leb 2 n) _ _
                                      (λ _. (h, hp))
                                      (λ _.
                                        on_branches Collects
                                          (ci_eq (tok 0) (codes "dhcp-option")
                                            && leb 3 n
                                            && ci_eq (tok 1) (codes "DNS"))
                                          _ _ (λ _. (h, hp)) (λ _. (h, hp)))))))))))

run_directive-Collects :
    (st : Ovpn) (toks : List Bytes) → Collects st → Collects (run_directive st toks)
run_directive-Collects st [] h = h
run_directive-Collects st (t ∷ ts) h = directive-Collects st (t ∷ ts) h

open_block-Collects : (st : Ovpn) (tag : Bytes) → Collects st → Collects (open_block st tag)
unfolding open_block
open_block-Collects st tag h =
    on_branches Collects (is_parsed_container_tag tag) _ _ (λ _. h) (λ _. h)

skip_line-Collects : (st : Ovpn) (o : Option Bytes) → Collects st → Collects (skip_line st o)
skip_line-Collects st none h = h
skip_line-Collects st (some tag) h =
    on_branches Collects (byte_eq tag st.skipping) _ _ (λ _. h) (λ _. h)

plain_line-Collects :
    (st : Ovpn) (line : Bytes) (o : Option Bytes) → Collects st → Collects (plain_line st line o)
plain_line-Collects st line (some tag) h = open_block-Collects st tag h
plain_line-Collects st line none h =
    on_branches Collects (is_some (closed_tag line)) _ _ (λ _. h)
      (λ _. run_directive-Collects st _ h)

ovpn_line-Collects : (st : Ovpn) (l : Bytes) → Collects st → Collects (ovpn_line st l)
unfolding ovpn_line trimmed_line
ovpn_line-Collects st l h =
    let line = trim (cut_line l) in
    on_branches Collects (is_empty st.skipping) _ _
      (λ _. plain_line-Collects st line (opened_tag line) h)
      (λ _. skip_line-Collects st (closed_tag line) h)

ovpn_lines-Collects : (st : Ovpn) (ls : List Bytes) → Collects st → Collects (ovpn_lines st ls)
unfolding ovpn_lines
ovpn_lines-Collects st [] h = h
ovpn_lines-Collects st (l ∷ ls) h =
    ovpn_lines-Collects (ovpn_line st l) ls (ovpn_line-Collects st l h)

default_port-pos : (p : ℕ) → 1 ≤ (if p == 0 then 1194 else p)
default_port-pos p = ground arith

default_port-le : (p : ℕ) → p ≤ 65535 → (if p == 0 then 1194 else p) ≤ 65535
default_port-le p h = ground arith

with_port-IsAddress :
    (p : ℕ) (e : VpnEndpoint) → p ≤ 65535 → IsAddress 0 e → IsAddress 1 (with_port p e)
with_port-IsAddress p e hp (hn, hl, hu) =
    on_branches (IsAddress 1) (e.port == 0) _ _
      (λ _. (hn, default_port-pos p, default_port-le p hp)) (λ k. (hn, ground arith, hu))

with_ports-All :
    (p : ℕ) (es : List VpnEndpoint)
    → p ≤ 65535
    → All (IsAddress 0) es
    → All (IsAddress 1) (map (with_port p) es)
with_ports-All p [] hp h = tt
with_ports-All p (e ∷ es) hp (he, h) = (with_port-IsAddress p e hp he, with_ports-All p es hp h)

length-with_ports : (p : ℕ) (es : List VpnEndpoint) → length (map (with_port p) es) ≡ length es
length-with_ports p [] = refl
length-with_ports p (e ∷ es) = ap suc (length-with_ports p es)

finish_ovpn-IsUsable : (st : Ovpn) → Collects st → IsUsable (finish_ovpn st)
unfolding AreAddresses IsUsable
finish_ovpn-IsUsable st ((hl, ha), hp) = (
  (
    omega (arith, length-with_ports st.default_port st.out.endpoints),
    with_ports-All st.default_port st.out.endpoints hp ha,
  ),
  some_endpoint_iff (finish_ovpn st).0,
)

start_ovpn-Collects : Collects start_ovpn
unfolding AreAddresses init
start_ovpn-Collects = ((omega arith, tt), omega arith)

pub parse_openvpn-IsUsable : (text : Bytes) → IsUsable (parse_openvpn text)
unfolding parse_openvpn
parse_openvpn-IsUsable text =
    let ls = raw_lines (skip_bom text) in
    finish_ovpn-IsUsable (ovpn_lines start_ovpn ls)
      (ovpn_lines-Collects start_ovpn ls start_ovpn-Collects)
