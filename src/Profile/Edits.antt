-- ===== src/Profile/Edits.antt =====
-- src/core/pmx_profile.c: adding, finding, removing and moving the profile's elements.
use proxi_might.Prelude.{
  refl, ◌≡◌, ℕ, Bool, true, false, ◌&&◌, ◌||◌, Option, none, some, List, [], ◌∷◌, ◌++◌, map, leb,
  ◌==◌, if◌then◌else◌, length, get_elem?,
}
use proxi_might.Prelude.Arrays.{remove_at, move_to}
use proxi_might.Status.{Status, ok, err_invalid_arg, err_not_found}
use proxi_might.Proxy.{Proxy}
use proxi_might.Proxy
use proxi_might.Vpn.{Vpn}
use proxi_might.Vpn
use proxi_might.Chain.{Chain, ChainMode, sequential, redundancy}
use proxi_might.Chain
use proxi_might.Rule.{
  Rule, Action, TargetKind, direct, proxy, block, no_target, proxy_target, chain_target,
}
use proxi_might.Rule
use proxi_might.Profile.{Profile, next_id, find_id, index_of, proxy_id, rule_id, chain_id, vpn_id}

unfoldable pub add_proxy : Profile → Profile × ℕ
unfolding next_id
add_proxy pf =
    let (pf', id) = next_id pf in
    (record pf' { proxies = pf.proxies ++ record Proxy.init { id = id } ∷ [] }, id)

unfoldable pub find_proxy : Profile → ℕ → Option Proxy
unfolding find_id
find_proxy pf id = if id == 0 then none else find_id proxy_id pf.proxies id

pub find_proxy-zero : (pf : Profile) → find_proxy pf 0 ≡ none
unfolding find_proxy
find_proxy-zero pf = refl

-- The hops without the removed proxy: dropped from a set of alternatives, left as a gap in a path.
unfoldable pub without_hop : ℕ → List ℕ → List ℕ
without_hop id [] = []
without_hop id (h ∷ hs) = let rest = without_hop id hs in if h == id then rest else h ∷ rest

unfoldable pub gap_hop : ℕ → List ℕ → List ℕ
gap_hop id [] = []
gap_hop id (h ∷ hs) = (if h == id then 0 else h) ∷ gap_hop id hs

unfoldable pub fixed_hops : ℕ → ChainMode → List ℕ → List ℕ
unfolding without_hop gap_hop
fixed_hops id redundancy hs = without_hop id hs
fixed_hops id sequential hs = gap_hop id hs

unfoldable pub drop_hop : ℕ → Chain → Chain
unfolding fixed_hops
drop_hop id c = record c { hops = fixed_hops id c.mode c.hops }

abbrev pub targets_proxy : TargetKind → Bool
targets_proxy proxy_target = true
targets_proxy _ = false

abbrev pub targets_chain : TargetKind → Bool
targets_chain chain_target = true
targets_chain _ = false

unfoldable pub forget_proxy : ℕ → Rule → Rule
forget_proxy id r =
    if targets_proxy r.target_kind && r.target_id == id then record r { target_id = 0 } else r

unfoldable pub forget_chain : ℕ → Rule → Rule
forget_chain id r =
    if targets_chain r.target_kind && r.target_id == id then record r { target_id = 0 } else r

unfoldable pub remove_proxy : Profile → ℕ → Profile × Status
unfolding index_of drop_hop forget_proxy
remove_proxy pf id = elim (index_of proxy_id pf.proxies id) [
  | none ↦ (pf, err_not_found)
  | some i ↦ (
    record pf {
      proxies = remove_at pf.proxies i;
      chains = map (drop_hop id) pf.chains;
      rules = map (forget_proxy id) pf.rules;
    },
    ok,
  )
]

unfoldable pub add_rule : Profile → Profile × ℕ
unfolding next_id
add_rule pf =
    let (pf', id) = next_id pf in
    (record pf' { rules = pf.rules ++ record Rule.init { id = id } ∷ [] }, id)

unfoldable pub find_rule : Profile → ℕ → Option Rule
unfolding find_id
find_rule pf id = find_id rule_id pf.rules id

unfoldable pub remove_rule : Profile → ℕ → Profile × Status
unfolding index_of
remove_rule pf id = elim (index_of rule_id pf.rules id) [
  | none ↦ (pf, err_not_found)
  | some i ↦ (record pf { rules = remove_at pf.rules i }, ok)
]

unfoldable pub move_rule : Profile → ℕ → ℕ → Profile × Status
move_rule pf from to =
    if leb (length pf.rules) from || leb (length pf.rules) to
    then (pf, err_invalid_arg)
    else if from == to
    then (pf, ok)
    else elim (get_elem? pf.rules from) [
      | none ↦ (pf, ok)
      | some moved ↦ (record pf { rules = move_to pf.rules from to moved }, ok)
    ]

unfoldable pub add_chain : Profile → Profile × ℕ
unfolding next_id
add_chain pf =
    let (pf', id) = next_id pf in
    (record pf' { chains = pf.chains ++ record Chain.init { id = id } ∷ [] }, id)

unfoldable pub find_chain : Profile → ℕ → Option Chain
unfolding find_id
find_chain pf id = find_id chain_id pf.chains id

unfoldable pub remove_chain : Profile → ℕ → Profile × Status
unfolding index_of forget_chain
remove_chain pf id = elim (index_of chain_id pf.chains id) [
  | none ↦ (pf, err_not_found)
  | some i ↦
      (record pf { chains = remove_at pf.chains i; rules = map (forget_chain id) pf.rules }, ok)
]

unfoldable pub add_vpn : Profile → Profile × ℕ
unfolding next_id
add_vpn pf =
    let (pf', id) = next_id pf in
    (record pf' { vpns = pf.vpns ++ record Vpn.init { id = id } ∷ [] }, id)

unfoldable pub find_vpn : Profile → ℕ → Option Vpn
unfolding find_id
find_vpn pf id = find_id vpn_id pf.vpns id

unfoldable pub remove_vpn : Profile → ℕ → Profile × Status
unfolding index_of
remove_vpn pf id = elim (index_of vpn_id pf.vpns id) [
  | none ↦ (pf, err_not_found)
  | some i ↦ (record pf { vpns = remove_at pf.vpns i }, ok)
]
