-- ===== src/Vpn/Load/Valid.antt =====
-- src/core/pmx_vpn.c: configurations that a file gave, and their validation.
use mathlib.Core.Path.{subst}
use proxi_might.Prelude.{
  false_ne_true, ℕ, ◌≡◌, ◌≢◌, refl, sym, ap, ◌∙◌, ◌↔◌, Bool, true, false, ◌&&◌, ◌||◌, not, Option,
  none, some, List, [], ◌∷◌, ◌==◌, if◌then◌else◌, length, take, All, arith, on_branches,
}
use proxi_might.Prelude.Bytes.{Bytes, strlcpy}
use proxi_might.Vpn.Text.{is_empty-ne}
use proxi_might.Status.{err_invalid_arg, Status, ok, is_ok}
use proxi_might.Rule.Patterns.{is_empty}
use proxi_might.Vpn.{Vpn, VpnKind, VpnEndpoint, wireguard, openvpn}
use proxi_might.Vpn.WireGuard.{sniff}
use proxi_might.Vpn.Endpoints.{IsAddress, AreAddresses, IsUsable, parse_wireguard-IsUsable}
use proxi_might.Vpn.Endpoints.Ovpn.{parse_openvpn-IsUsable}
use proxi_might.Vpn.Load.{
  up_to, read_all, parse_as, named, name_parsed, load_kind, load_text, load_file, lacks_address,
  is_wireguard, vpn_validate,
}

-- What a load that succeeds has put into the configuration.
abbrev IsLoaded : Bytes → Vpn × Status → Type 0
IsLoaded path (v, s) =
    s ≡ ok → AreAddresses 1 v.endpoints × (v.endpoints ≢ []) × (v.config_path ≡ take 1023 path)

ok_is_ok : {s : Status} → is_ok s ≡ false → s ≢ ok
ok_is_ok h e = false_ne_true (sym h ∙ ap is_ok e)

name_parsed-IsLoaded :
    (path : Bytes) (p : Vpn × Status) → IsUsable p → IsLoaded path (name_parsed path p)
unfolding IsUsable named strlcpy
name_parsed-IsLoaded path (v, s) (ha, hs) =
    on_branches (IsLoaded path) (is_ok s) (named path v, s) (v, s) (λ _ e. (ha, hs.0 e, refl))
      (λ f e. absurd (ok_is_ok f e))

-- For every text, the endpoints that either VPN parser returns are at most 8, each with a host
-- that is not empty and a port from 1 to 65535, and the parser reports success exactly if there
-- is at least one.
pub parse_as-IsUsable : (kind : VpnKind) (text : Bytes) → IsUsable (parse_as kind text)
unfolding parse_as
parse_as-IsUsable wireguard text = parse_wireguard-IsUsable text
parse_as-IsUsable openvpn text = parse_openvpn-IsUsable text

load_kind-IsLoaded :
    (path text : Bytes) (out : Vpn) (o : Option VpnKind) → IsLoaded path (load_kind path text out o)
load_kind-IsLoaded path text out none = λ e. cc
load_kind-IsLoaded path text out (some kind) =
    name_parsed-IsLoaded path (parse_as kind text) (parse_as-IsUsable kind text)

load_text-IsLoaded :
    (path : Bytes) (out : Vpn) (o : Option Bytes) → IsLoaded path (load_text path out (read_all o))
load_text-IsLoaded path out none = λ e. cc
load_text-IsLoaded path out (some bytes) =
    load_kind-IsLoaded path (up_to 0 bytes) out (sniff (up_to 0 bytes))

-- A WireGuard configuration needs its two keys, any other none.
unfoldable pub lacks_keys : Vpn → Bool
unfolding is_wireguard
lacks_keys v = is_wireguard v.kind && (is_empty v.peer_public_key || not v.has_private_key)

lacks_address-addresses : (es : List VpnEndpoint) → All (IsAddress 1) es → lacks_address es ≡ false
unfolding lacks_address
lacks_address-addresses [] h = refl
lacks_address-addresses (e ∷ es) ((hn, hl, hu), h) =
    let e1 : is_empty e.host ≡ false = is_empty-ne e.host hn in
    let e2 : (e.port == 0) ≡ false = ground arith in rw (e1, e2) (lacks_address-addresses es h)

-- The validation's last part, from what it tests.
abbrev verdict : Bool → Bool → Bool → Bytes → Bytes → Bytes → Status × Bytes
verdict w p k a b c =
    if w && p then (err_invalid_arg, a) else if w && not k then (err_invalid_arg, b) else (ok, c)

keys_tested :
    (w p k : Bool) (a b c : Bytes) → ((verdict w p k a b c).0 ≡ ok) ↔ ((w && (p || not k)) ≡ false)
keys_tested false p k a b c = (λ h. refl, λ h. refl)
keys_tested true true k a b c = (λ h. cc, λ h. cc)
keys_tested true false true a b c = (λ h. refl, λ h. refl)
keys_tested true false false a b c = (λ h. cc, λ h. cc)

validates :
    (v : Vpn) (why : Bytes) (n : ℕ)
    → (length v.endpoints == 0) ≡ false
    → lacks_address v.endpoints ≡ false
    → is_empty v.config_path ≡ false
    → ((vpn_validate v why n).0 ≡ ok) ↔ (lacks_keys v ≡ false)
unfolding vpn_validate lacks_keys
validates v why n h1 h2 h3 =
    rw (h1, h2, h3)
      (keys_tested (is_wireguard v.kind) (is_empty v.peer_public_key) v.has_private_key _ _ _)

has_some : (es : List VpnEndpoint) → es ≢ [] → (length es == 0) ≡ false
has_some [] h = absurd (h refl)
has_some (e ∷ es) h = ground arith

take_ne : (s : Bytes) → s ≢ [] → is_empty (take 1023 s) ≡ false
take_ne [] h = absurd (h refl)
take_ne (c ∷ s) h = refl

loaded_validates :
    (path : Bytes) (p : Vpn × Status) (v : Vpn) (why : Bytes) (n : ℕ)
    → path ≢ []
    → p ≡ (v, ok)
    → IsLoaded path p
    → ((vpn_validate v why n).0 ≡ ok) ↔ (lacks_keys v ≡ false)
unfolding AreAddresses
loaded_validates path p v why n hp e h =
    let ((hl, ha), hn, hc) = subst (IsLoaded path) e h refl in
    validates v why n (has_some v.endpoints hn) (lacks_address-addresses v.endpoints ha)
      (ap is_empty hc ∙ take_ne path hp)

-- A configuration loaded with success from a path that is not empty passes the validation exactly
-- if it is not a WireGuard configuration that lacks the peer's public key or a private key.
pub load_file-vpn_validate :
    (contents : Bytes → Option Bytes) (path : Bytes) (out v : Vpn) (why : Bytes) (n : ℕ)
    → load_file contents path out ≡ (v, ok)
    → path ≢ []
    → ((vpn_validate v why n).0 ≡ ok) ↔ (lacks_keys v ≡ false)
unfolding load_file AreAddresses
load_file-vpn_validate contents path out v why n e hp =
    loaded_validates path (load_file contents path out) v why n hp e
      (load_text-IsLoaded path out (contents path))
