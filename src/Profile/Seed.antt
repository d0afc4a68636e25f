-- ===== src/Profile/Seed.antt =====
-- src/core/pmx_profile.c: the profile of a first start.
use proxi_might.Prelude.{ℕ, true, false, List, [], ◌∷◌}
use proxi_might.Prelude.Bytes.{codes}
use proxi_might.Proxy.{Proxy, socks5, http}
use proxi_might.Rule.{Rule, direct, proxy, no_target, proxy_target}
use proxi_might.Profile.{Profile, init}
use proxi_might.Profile.Edits.{add_proxy, add_rule}

-- The element that was added last, changed in its place.
unfoldable pub with_last : {A : Type 0} → (A → A) → List A → List A
with_last f [] = []
with_last f (x ∷ []) = f x ∷ []
with_last f (x ∷ y ∷ ys) = x ∷ with_last f (y ∷ ys)

-- A new proxy with its fields set, and its id.
unfoldable pub seed_proxy : Profile → (Proxy → Proxy) → Profile × ℕ
unfolding add_proxy with_last
seed_proxy pf f =
    let (pf', id) = add_proxy pf in (record pf' { proxies = with_last f pf'.proxies }, id)

unfoldable pub seed_rule : Profile → (Rule → Rule) → Profile
unfolding add_rule with_last
seed_rule pf f = let (pf', id) = add_rule pf in record pf' { rules = with_last f pf'.rules }

abbrev pub local_tor : Proxy → Proxy
local_tor p = record p {
  label = codes "Local Tor (SOCKS5)";
  type = socks5;
  host = codes "127.0.0.1";
  port = 9050;
  enabled = true;
}

abbrev pub example_http : Proxy → Proxy
example_http p = record p {
  label = codes "Example HTTP proxy";
  type = http;
  host = codes "127.0.0.1";
  port = 8080;
  enabled = false;
}

abbrev pub local_direct : Rule → Rule
local_direct r = record r {
  name = codes "Local & LAN direct";
  host_pattern = codes "127.*;10.*;192.168.*;172.16.*;169.254.*";
  action = direct;
  target_kind = no_target;
}

abbrev pub browsers_via : ℕ → Rule → Rule
browsers_via tor_id r = record r {
  name = codes "Browsers via Tor";
  app_pattern = codes "chrome.exe;firefox.exe;msedge.exe;Google Chrome;firefox";
  action = proxy;
  target_kind = proxy_target;
  target_id = tor_id;
}

-- pmx_profile_seed_defaults
unfoldable pub seed_defaults : Profile
unfolding init seed_proxy seed_rule
seed_defaults =
    let (pf1, tor_id) = seed_proxy (record init { label = codes "Default profile" }) local_tor in
    let (pf2, http_id) = seed_proxy pf1 example_http in
    let pf3 = seed_rule pf2 local_direct in
    let pf4 = seed_rule pf3 (browsers_via tor_id) in
    record pf4 {
      default_rule = record (pf4.default_rule) {
        name = codes "Default";
        action = direct;
        target_kind = no_target;
      };
    }
