-- ===== src/Engine/Resolve.antt =====
-- src/core/pmx_engine.c: which verdict a connection gets, and by which proxies it goes.
use proxi_might.Prelude.{
  ℕ, Bool, true, false, ◌&&◌, ◌||◌, not, Option, none, some, List, [], ◌∷◌, ltb, ◌==◌,
  if◌then◌else◌, length, take,
}
use proxi_might.Prelude.Bytes.{Bytes, strlcpy}
use proxi_might.Proxy.{Proxy}
use proxi_might.Chain.{Chain, ChainMode, sequential, redundancy, max_chain_hops}
use proxi_might.Rule.{
  Rule, Action, TargetKind, ConnQuery, direct, proxy, block, no_target, proxy_target, chain_target,
  rule_matches,
}
use proxi_might.Profile.{Profile}
use proxi_might.Profile.Edits.{find_proxy, find_chain}
use proxi_might.Profile.Validate.{em_dash, target_label}

pub data Verdict : Type 0 where
  go_direct go_proxy go_block : Verdict

-- `via` is the part of `via_chain` below `via_count`.
pub record Decision : Type 0 where
  pub verdict : Verdict
  pub target_kind : TargetKind
  pub target_id : ℕ
  pub via_label : Bytes
  pub rule_name : Bytes
  pub via : List Proxy
  pub via_hop_count : ℕ

abbrev pub max_label : ℕ
max_label = 64

abbrev pub max_name : ℕ
max_name = 96

-- The first rule that is enabled and matches.
unfoldable pub first_match : List Rule → ConnQuery → Option Rule
unfolding rule_matches
first_match [] q = none
first_match (r ∷ rs) q =
    let rest = first_match rs q in if r.enabled && rule_matches r q then some r else rest

-- One hop more, if it is enabled.
abbrev pub with_hop : Bool → Proxy → Option (List Proxy) → Option (List Proxy)
with_hop true p (some ps) = some (p ∷ ps)
with_hop _ p ps = none

abbrev pub next_hop : Option Proxy → Option (List Proxy) → Option (List Proxy)
next_hop none rest = none
next_hop (some p) rest = with_hop p.enabled p rest

-- The hops as proxies, all of them or none.
unfoldable pub usable_hops : Profile → List ℕ → Option (List Proxy)
unfolding find_proxy
usable_hops pf [] = some []
usable_hops pf (h ∷ hs) = let rest = usable_hops pf hs in next_hop (find_proxy pf h) rest

abbrev pub or_empty : Option (List Proxy) → List Proxy
or_empty none = []
or_empty (some ps) = ps

abbrev pub is_redundancy : ChainMode → Bool
is_redundancy redundancy = true
is_redundancy sequential = false

-- `via_chain` and `via_hop_count` for a chain with that many hops, which were found usable or not
abbrev pub via_by : Bool → ChainMode → ℕ → Option (List Proxy) → List Proxy × ℕ
via_by enabled mode hops found =
    let via = or_empty found in
    if not enabled || hops == 0
    then ([], 0)
    else if is_redundancy mode && ltb 1 (length via)
    then (take 1 via, 1)
    else (via, hops)

unfoldable pub via_chain : Profile → Chain → List Proxy × ℕ
unfolding usable_hops
via_chain pf c =
    via_by c.enabled c.mode (length c.hops) (usable_hops pf (take max_chain_hops c.hops))

unfoldable pub via_proxy : Profile → ℕ → List Proxy × ℕ
unfolding find_proxy
via_proxy pf id = elim (find_proxy pf id) [
  | none ↦ ([], 1)
  | some p ↦ (if p.enabled then p ∷ [] else [], 1)
]

unfoldable pub via_of : Profile → TargetKind → ℕ → List Proxy × ℕ
unfolding via_proxy via_chain find_chain
via_of pf no_target id = ([], 0)
via_of pf proxy_target id = via_proxy pf id
via_of pf chain_target id = elim (find_chain pf id) [ none ↦ ([], 0) | some c ↦ via_chain pf c ]

-- A decision by the rule `chosen` before its action is looked at.
abbrev pub undecided : Rule → Decision
undecided chosen = record {
  verdict = go_direct;
  target_kind = no_target;
  target_id = 0;
  via_label = em_dash;
  rule_name = strlcpy [] chosen.name max_name;
  via = [];
  via_hop_count = 0;
}

-- switch (chosen->action)
unfoldable pub decision_by : Action → Profile → Rule → Decision
unfolding via_of target_label
decision_by direct pf chosen = undecided chosen
decision_by block pf chosen = record (undecided chosen) { verdict = go_block }
decision_by proxy pf chosen =
    let (via, hops) = via_of pf chosen.target_kind chosen.target_id in
    record (undecided chosen) {
      verdict = go_proxy;
      target_kind = chosen.target_kind;
      target_id = chosen.target_id;
      via_label = target_label pf chosen.target_kind chosen.target_id max_label;
      via = via;
      via_hop_count = hops;
    }

unfoldable pub decision_of : Profile → Rule → Decision
unfolding decision_by
decision_of pf chosen = decision_by chosen.action pf chosen

-- pmx_resolve_with_profile on a profile and a query that are not NULL
unfoldable pub resolve_with_profile : Profile → ConnQuery → Decision
unfolding first_match decision_of
resolve_with_profile pf q = elim (first_match pf.rules q) [
  | none ↦ decision_of pf pf.default_rule
  | some r ↦ decision_of pf r
]
