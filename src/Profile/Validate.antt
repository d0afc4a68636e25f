-- ===== src/Profile/Validate.antt =====
-- src/core/pmx_profile.c: the labels of targets, and the check that all references resolve.
use proxi_might.Prelude.{
  ℕ, Bool, true, false, ◌&&◌, Option, none, some, List, [], ◌∷◌, ◌==◌, if◌then◌else◌,
}
use proxi_might.Prelude.Bytes.{Bytes, codes, strlcpy}
use proxi_might.Status.{Status, ok, err_parse}
use proxi_might.Chain.{Chain}
use proxi_might.Rule.{Action, Rule, TargetKind, proxy, no_target, proxy_target, chain_target}
use proxi_might.Rule.Ports.{port_spec_validate}
use proxi_might.Profile.{Profile}
use proxi_might.Profile.Edits.{find_proxy, find_chain}

-- A dash, in UTF-8.
abbrev pub em_dash : Bytes
em_dash = 226 ∷ 128 ∷ 148 ∷ []

or_missing : Option Bytes → Bytes
or_missing none = codes "(missing)"
or_missing (some label) = label

label_of : Profile → TargetKind → ℕ → Bytes
unfolding find_proxy find_chain or_missing
label_of pf no_target id = em_dash
label_of pf proxy_target id =
    or_missing (elim (find_proxy pf id) [ none ↦ none | some p ↦ some p.label ])
label_of pf chain_target id =
    or_missing (elim (find_chain pf id) [ none ↦ none | some c ↦ some c.label ])

-- pmx_profile_target_label, for a buffer of `buf_size` bytes, not 0
unfoldable pub target_label : Profile → TargetKind → ℕ → ℕ → Bytes
unfolding label_of
target_label pf kind id buf_size =
    strlcpy [] (if id == 0 then em_dash else label_of pf kind id) buf_size

abbrev pub is_some {ℓ} : {A : Type ℓ} → Option A → Bool
is_some none = false
is_some (some a) = true

unfoldable pub resolves : Profile → Action → TargetKind → ℕ → Bool
unfolding find_proxy find_chain
resolves pf proxy no_target id = false
resolves pf proxy proxy_target id = is_some (find_proxy pf id)
resolves pf proxy chain_target id = is_some (find_chain pf id)
resolves pf _ kind id = true

-- A rule that sends to a proxy or a chain names one that is there.
unfoldable pub target_resolves : Profile → Rule → Bool
unfolding resolves
target_resolves pf r = resolves pf r.action r.target_kind r.target_id

-- One rule's part: the status of its ports, whether its target resolves, and the later rules.
abbrev pub rule_status : Status → Bool → Status → Status
rule_status ok true rest = rest
rule_status ok false rest = err_parse
rule_status _ b rest = err_parse

unfoldable pub validate_rules : Profile → List Rule → Status
unfolding port_spec_validate target_resolves
validate_rules pf [] = ok
validate_rules pf (r ∷ rs) =
    let rest = validate_rules pf rs in
    rule_status (port_spec_validate r.port_spec) (target_resolves pf r) rest

unfoldable pub hops_resolve : Profile → List ℕ → Bool
unfolding find_proxy
hops_resolve pf [] = true
hops_resolve pf (h ∷ hs) = let rest = hops_resolve pf hs in is_some (find_proxy pf h) && rest

unfoldable pub validate_chains : Profile → List Chain → Status
unfolding hops_resolve
validate_chains pf [] = ok
validate_chains pf (c ∷ cs) =
    let rest = validate_chains pf cs in if hops_resolve pf c.hops then rest else err_parse

-- pmx_profile_validate, its status
unfoldable pub validate : Profile → Status
unfolding validate_rules validate_chains
validate pf = elim (validate_rules pf pf.rules) [ ok ↦ validate_chains pf pf.chains | st ↦ st ]
