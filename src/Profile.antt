-- ===== src/Profile.antt =====
-- include/proximight/pmx_profile.h and src/core/pmx_profile.c: the lists that the user edits.
-- A list is the part of the source's array below its count.
use proxi_might.Prelude.{
  ℕ, zero, suc, ◌+◌, ◌%◌, ◌^◌, Bool, true, false, ◌&&◌, ◌||◌, not, Option, none, some, List, [],
  ◌∷◌, ◌++◌, map, leb, ◌==◌, if◌then◌else◌, length, get_elem?,
}
use proxi_might.Prelude.Bytes.{Bytes, codes, strlcpy}
use proxi_might.Prelude.Arrays.{remove_at, move_to}
use proxi_might.Prelude.Decimal.{ℤ, pos}
use proxi_might.Status.{Status, ok, err_invalid_arg, err_not_found, err_parse}
use proxi_might.Proxy.{Proxy}
use proxi_might.Proxy
use proxi_might.Vpn.{Vpn}
use proxi_might.Vpn
use proxi_might.Chain.{Chain, sequential, redundancy}
use proxi_might.Chain
use proxi_might.Rule.{
  Rule, Action, TargetKind, direct, proxy, block, no_target, proxy_target, chain_target,
}
use proxi_might.Rule
use proxi_might.Rule.Ports.{port_spec_validate}
use proxi_might.Lockdown.{Policy, policy_defaults}
pub mod Edits
pub mod Validate
pub mod Dangling
pub mod Seed
pub mod Sealed
mod Tests

pub record CheckOpts : Type 0 where
  pub probe_host : Bytes
  pub probe_port : ℕ
  pub timeout_ms : ℤ
  pub measure_egress_ip : Bool
  pub egress_service : Bytes
  pub egress_path : Bytes
  pub measure_ping : Bool

abbrev pub check_opts_defaults : CheckOpts
check_opts_defaults = record {
  probe_host = codes "example.com";
  probe_port = 443;
  timeout_ms = pos 5000;
  measure_egress_ip = false;
  egress_service = codes "api.ipify.org";
  egress_path = codes "/";
  measure_ping = true;
}

pub record Settings : Type 0 where
  pub dns_through_proxy : Bool
  pub demo_traffic : Bool
  pub demo_interval_ms : ℤ
  pub check : CheckOpts
  pub wireguard_path : Bytes
  pub openvpn_path : Bytes

pub record Profile : Type 0 where
  pub label : Bytes
  pub path : Bytes
  pub proxies : List Proxy
  pub rules : List Rule
  pub chains : List Chain
  pub vpns : List Vpn
  pub default_rule : Rule
  pub lockdown : Policy
  pub settings : Settings
  pub next_id : ℕ

unfoldable pub init : Profile
unfolding Rule.init
init = record {
  label = codes "New profile";
  path = [];
  proxies = [];
  rules = [];
  chains = [];
  vpns = [];
  default_rule = record Rule.init {
    name = codes "Default";
    action = direct;
    target_kind = no_target;
  };
  lockdown = policy_defaults;
  settings = record {
    dns_through_proxy = true;
    demo_traffic = true;
    demo_interval_ms = pos 1500;
    check = check_opts_defaults;
    wireguard_path = [];
    openvpn_path = [];
  };
  next_id = 1;
}

unfoldable pub clear : Profile → Profile
clear pf = record pf { proxies = []; rules = []; chains = []; vpns = [] }

-- pmx_profile_copy onto another profile, where the arrays could be grown
unfoldable pub copy : Profile → Profile → Profile
copy dst src = record dst {
  proxies = src.proxies;
  rules = src.rules;
  chains = src.chains;
  vpns = src.vpns;
  label = src.label;
  path = src.path;
  default_rule = src.default_rule;
  lockdown = src.lockdown;
  settings = src.settings;
  next_id = src.next_id;
}

-- pmx_profile_next_id; an id has 64 bits
unfoldable pub next_id : Profile → Profile × ℕ
next_id pf =
    let id = if pf.next_id == 0 then 1 else pf.next_id in
    (record pf { next_id = (id + 1) % 2 ^ 64 }, id)

abbrev pub next_index : Option ℕ → Option ℕ
next_index none = none
next_index (some i) = some (suc i)

module _ {A : Type 0} (id_of : A → ℕ) where
  -- The first element with the id.
  unfoldable pub find_id : List A → ℕ → Option A
  find_id [] id = none
  find_id (a ∷ xs) id = let rest = find_id xs id in if id_of a == id then some a else rest

  -- Its index.
  unfoldable pub index_of : List A → ℕ → Option ℕ
  index_of [] id = none
  index_of (a ∷ xs) id =
      let rest = next_index (index_of xs id) in if id_of a == id then some 0 else rest

abbrev pub proxy_id : Proxy → ℕ
proxy_id p = p.id

abbrev pub rule_id : Rule → ℕ
rule_id r = r.id

abbrev pub chain_id : Chain → ℕ
chain_id c = c.id

abbrev pub vpn_id : Vpn → ℕ
vpn_id v = v.id
