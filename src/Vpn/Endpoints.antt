-- ===== src/Vpn/Endpoints.antt =====
-- src/core/pmx_vpn.c: the endpoints that the parsers collect.
pub mod Ovpn
use proxi_might.Prelude.{
  take, ◌↔◌, ◌==◌, length-append, on_branches, ℕ, zero, suc, ◌+◌, ◌-◌, ◌%◌, ◌≤◌, ◌≡◌, ◌≢◌, refl,
  Bool, true, false, Option, none, some, List, [], ◌∷◌, ◌++◌, leb, if◌then◌else◌, length, All,
  arith, map,
}
use proxi_might.Prelude.Bytes.{codes, Bytes, strlcpy}
use proxi_might.Prelude.Decimal.{ℤ, pos, negsuc}
use proxi_might.Status.{Status, ok, err_parse}
use proxi_might.Vpn.{wireguard, init, Vpn, VpnEndpoint}
use proxi_might.Vpn.Text.{
  split_first, split_last, number, raw_lines, ci_eq, to_port, in_port_range, if_port,
  parse_hostport, hostport_plain, hostport_bracket, skip_bom,
}
use proxi_might.Vpn.WireGuard.{
  sec_none, sec_iface, sec_peer, clean_line, wg_line, Section, wg_lines, some_endpoint, wg_clean,
  wg_entry, iface_entry, parse_wireguard, peer_entry, add_endpoint, add_found,
}

-- A host with a name, and a port between `lo` and 65535.
abbrev pub IsAddress : ℕ → VpnEndpoint → Type 0
IsAddress lo e = (e.host ≢ []) × (lo ≤ e.port) × (e.port ≤ 65535)

unfoldable pub AreAddresses : ℕ → List VpnEndpoint → Type 0
AreAddresses lo es = (length es ≤ 8) × All (IsAddress lo) es

pub to_port-le : (z : ℤ) → to_port z ≤ 65535
to_port-le (pos n) = omega arith
to_port-le (negsuc n) = omega arith

All-append :
    (P : VpnEndpoint → Type 0) (es fs : List VpnEndpoint) → All P es → All P fs → All P (es ++ fs)
All-append P [] fs h k = k
All-append P (e ∷ es) fs (h, hs) k = (h, All-append P es fs hs k)

AreAddresses-snoc :
    (lo : ℕ) (es : List VpnEndpoint) (e : VpnEndpoint)
    → length es ≤ 7
    → IsAddress lo e
    → AreAddresses lo es
    → AreAddresses lo (es ++ e ∷ [])
unfolding AreAddresses
AreAddresses-snoc lo es e hn he (hl, ha) =
    (omega (arith, length-append es (e ∷ [])), All-append (IsAddress lo) es (e ∷ []) ha (he, tt))

pub add_endpoint-AreAddresses :
    (lo : ℕ) (v : Vpn) (host : Bytes) (port : ℕ) (udp : Bool)
    → lo ≤ port
    → port ≤ 65535
    → AreAddresses lo v.endpoints
    → AreAddresses lo (add_endpoint v host port udp).endpoints
unfolding add_endpoint strlcpy
add_endpoint-AreAddresses lo v [] port udp hl hu h = h
add_endpoint-AreAddresses lo v (c ∷ host) port udp hl hu h =
    on_branches (λ (w : Vpn). AreAddresses lo w.endpoints) (leb 8 (length v.endpoints)) _ _ (λ _. h)
      (λ e. AreAddresses-snoc lo v.endpoints _ (ground arith) ((λ k. cc), hl, hu) h)

-- What `parse_hostport` finds has a port from 1 on.
IsHostport : Option (Bytes × ℕ) → Type 0
IsHostport none = Unit
IsHostport (some (host, port)) = (1 ≤ port) × (port ≤ 65535)

if_port-IsHostport : (host : Bytes) (z : ℤ) → IsHostport (if_port host z)
unfolding IsHostport
if_port-IsHostport host (pos zero) = tt
if_port-IsHostport host (pos (suc n)) =
    on_branches IsHostport (leb (suc n) 65535) _ _ (λ e. ground arith) (λ _. tt)
if_port-IsHostport host (negsuc n) = tt

hostport_plain-IsHostport :
    (hcap : ℕ) (o : Option (Bytes × Bytes)) → IsHostport (hostport_plain hcap o)
unfolding hostport_plain IsHostport
hostport_plain-IsHostport hcap none = tt
hostport_plain-IsHostport hcap (some ([], after)) = tt
hostport_plain-IsHostport hcap (some (c ∷ host, after)) =
    if_port-IsHostport (take (hcap - 1) (c ∷ host)) (number after)

hostport_bracket-IsHostport :
    (hcap : ℕ) (o : Option (Bytes × Bytes)) → IsHostport (hostport_bracket hcap o)
unfolding hostport_bracket IsHostport
hostport_bracket-IsHostport hcap none = tt
hostport_bracket-IsHostport hcap (some (host, [])) = tt
hostport_bracket-IsHostport hcap (some (host, c ∷ after)) =
    on_branches IsHostport (c == b':') _ _
      (λ _. if_port-IsHostport (take (hcap - 1) host) (number after)) (λ _. tt)

parse_hostport-IsHostport : (s : Bytes) (hcap : ℕ) → IsHostport (parse_hostport s hcap)
unfolding parse_hostport IsHostport
parse_hostport-IsHostport [] hcap = tt
parse_hostport-IsHostport (c ∷ s) hcap =
    on_branches IsHostport (c == b'[') _ _
      (λ _. hostport_bracket-IsHostport hcap (split_first b']' s))
      (λ _. hostport_plain-IsHostport hcap (split_last b':' (c ∷ s)))

add_found-AreAddresses :
    (v : Vpn) (o : Option (Bytes × ℕ))
    → IsHostport o
    → AreAddresses 1 v.endpoints
    → AreAddresses 1 (add_found v o).endpoints
unfolding IsHostport
add_found-AreAddresses v none ho h = h
add_found-AreAddresses v (some (host, port)) (hl, hu) h =
    add_endpoint-AreAddresses 1 v host port true hl hu h

abbrev pub HasAddresses : ℕ → Vpn → Type 0
HasAddresses lo v = AreAddresses lo v.endpoints

iface_entry-HasAddresses :
    (v : Vpn) (key val : Bytes) → HasAddresses 1 v → HasAddresses 1 (iface_entry v key val)
unfolding iface_entry
iface_entry-HasAddresses v key val h =
    on_branches (HasAddresses 1) (ci_eq key (codes "PrivateKey")) _ _ (λ _. h)
      (λ _.
        on_branches (HasAddresses 1) (ci_eq key (codes "Address")) _ _ (λ _. h)
          (λ _.
            on_branches (HasAddresses 1) (ci_eq key (codes "DNS")) _ _ (λ _. h)
              (λ _. on_branches (HasAddresses 1) (ci_eq key (codes "MTU")) _ _ (λ _. h) (λ _. h))))

peer_entry-HasAddresses :
    (v : Vpn) (key val : Bytes) → HasAddresses 1 v → HasAddresses 1 (peer_entry v key val)
unfolding peer_entry
peer_entry-HasAddresses v key val h =
    on_branches (HasAddresses 1) (ci_eq key (codes "PublicKey")) _ _ (λ _. h)
      (λ _.
        on_branches (HasAddresses 1) (ci_eq key (codes "PresharedKey")) _ _ (λ _. h)
          (λ _.
            on_branches (HasAddresses 1) (ci_eq key (codes "AllowedIPs")) _ _ (λ _. h)
              (λ _.
                on_branches (HasAddresses 1) (ci_eq key (codes "Endpoint")) _ _
                  (λ _. add_found-AreAddresses v _ (parse_hostport-IsHostport val 256) h)
                  (λ _.
                    on_branches (HasAddresses 1) (ci_eq key (codes "PersistentKeepalive")) _ _
                      (λ _. h) (λ _. h)))))

wg_entry-HasAddresses :
    (sec : Section) (v : Vpn) (o : Option (Bytes × Bytes))
    → HasAddresses 1 v
    → HasAddresses 1 (wg_entry sec v o)
unfolding wg_entry
wg_entry-HasAddresses sec v none h = h
wg_entry-HasAddresses sec v (some ([], val)) h = h
wg_entry-HasAddresses sec_none v (some (k ∷ key, val)) h = h
wg_entry-HasAddresses sec_iface v (some (k ∷ key, val)) h = iface_entry-HasAddresses v _ val h
wg_entry-HasAddresses sec_peer v (some (k ∷ key, val)) h = peer_entry-HasAddresses v _ val h

wg_clean-HasAddresses :
    (sec : Section) (v : Vpn) (line : Bytes)
    → HasAddresses 1 v
    → HasAddresses 1 (wg_clean (sec, v) line).1
unfolding wg_clean
wg_clean-HasAddresses sec v [] h = h
wg_clean-HasAddresses sec v (c ∷ line) h =
    on_branches (λ (s : Section × Vpn). HasAddresses 1 s.1) (c == b'[') _ _ (λ _. h)
      (λ _. wg_entry-HasAddresses sec v _ h)

pub wg_lines-HasAddresses :
    (st : Section × Vpn) (ls : List Bytes) → HasAddresses 1 st.1 → HasAddresses 1 (wg_lines st ls).1
unfolding wg_lines wg_line
wg_lines-HasAddresses st [] h = h
wg_lines-HasAddresses (sec, v) (l ∷ ls) h =
    wg_lines-HasAddresses (wg_line (sec, v) l) ls (wg_clean-HasAddresses sec v (clean_line l) h)

-- A parser's result: addresses only, and at least one where it reports success.
unfoldable pub IsUsable : Vpn × Status → Type 0
unfolding AreAddresses
IsUsable (v, s) = AreAddresses 1 v.endpoints × ((s ≡ ok) ↔ (v.endpoints ≢ []))

success_iff :
    (es : List VpnEndpoint) → ((if length es == 0 then err_parse else ok) ≡ ok) ↔ (es ≢ [])
success_iff [] = (λ h. cc, λ h. absurd (h refl))
success_iff (e ∷ es) = ground arith

pub some_endpoint_iff : (v : Vpn) → (some_endpoint v ≡ ok) ↔ (v.endpoints ≢ [])
some_endpoint_iff v = success_iff v.endpoints

pub parse_wireguard-IsUsable : (text : Bytes) → IsUsable (parse_wireguard text)
unfolding parse_wireguard IsUsable init AreAddresses
parse_wireguard-IsUsable text =
    let st = wg_lines (sec_none, record init { kind = wireguard }) (raw_lines (skip_bom text)) in
    (
      wg_lines-HasAddresses (sec_none, record init { kind = wireguard }) (raw_lines (skip_bom text))
          (ground arith, tt),
      some_endpoint_iff st.1,
    )
