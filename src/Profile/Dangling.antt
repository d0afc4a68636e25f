-- ===== src/Profile/Dangling.antt =====
-- src/core/pmx_profile.c: removals and the validation of the rules that they leave.
use proxi_might.Prelude.{
  ℕ, zero, suc, ◌≡◌, refl, ap, ◌∙◌, Bool, true, false, ◌&&◌, some, List, [], ◌∷◌, map, ◌==◌,
  if◌then◌else◌, get_elem?, arith, inl, inr, Option-cases,
}
use proxi_might.Status.{Status, ok, err_parse, err_not_found}
use proxi_might.Rule.{Rule, Action, TargetKind, proxy, proxy_target}
use proxi_might.Rule.Ports.{port_spec_validate}
use proxi_might.Profile.{Profile, index_of, proxy_id}
use proxi_might.Profile.Edits.{remove_proxy, forget_proxy, targets_proxy, find_proxy-zero}
use proxi_might.Profile.Validate.{
  is_some, resolves, target_resolves, rule_status, validate_rules, validate,
}

rule_status-false : (st : Status) (rest : Status) → rule_status st false rest ≡ err_parse
rule_status-false ok rest = refl
rule_status-false _ rest = refl

rule_status-err : (st : Status) (b : Bool) → rule_status st b err_parse ≡ err_parse
rule_status-err ok true = refl
rule_status-err ok false = refl
rule_status-err _ b = refl

-- One rule whose target does not resolve is enough.
validate_rules-map :
    (pf : Profile) (g : Rule → Rule) (rs : List Rule) (i : ℕ) (r : Rule)
    → get_elem? rs i ≡ some r
    → target_resolves pf (g r) ≡ false
    → validate_rules pf (map g rs) ≡ err_parse
unfolding validate_rules
validate_rules-map pf g [] i r h broken = cc
validate_rules-map pf g (x ∷ rs) zero r h broken =
    let same : x ≡ r = grind arith in
    let rest = validate_rules pf (map g rs) in
    let off : target_resolves pf (g x) ≡ false =
      ap (λ (y : Rule). target_resolves pf (g y)) same ∙ broken in
    ap (λ b. rule_status (port_spec_validate (g x).port_spec) b rest) off
    ∙ rule_status-false (port_spec_validate (g x).port_spec) rest
validate_rules-map pf g (x ∷ rs) (suc i) r h broken =
    let st = port_spec_validate (g x).port_spec in
    ap (rule_status st (target_resolves pf (g x))) (validate_rules-map pf g rs i r h broken)
    ∙ rule_status-err st (target_resolves pf (g x))

forget_proxy-broken :
    (pf : Profile) (r : Rule)
    → r.action ≡ proxy
    → r.target_kind ≡ proxy_target
    → target_resolves pf (forget_proxy r.target_id r) ≡ false
unfolding forget_proxy target_resolves resolves
forget_proxy-broken pf r a k =
    let hit : (targets_proxy r.target_kind && r.target_id == r.target_id) ≡ true =
      ground (arith, k) in
    ap (λ (b : Bool). target_resolves pf (if b then record r { target_id = 0 } else r)) hit
    ∙ ap (λ (x : Action). resolves pf x r.target_kind 0) a
    ∙ ap (λ (x : TargetKind). resolves pf proxy x 0) k
    ∙ ap is_some (find_proxy-zero pf)

remove_proxy-rules :
    (pf : Profile) (id : ℕ)
    → (remove_proxy pf id).1 ≡ ok
    → (remove_proxy pf id).0.rules ≡ map (forget_proxy id) pf.rules
unfolding remove_proxy
remove_proxy-rules pf id done = elim (Option-cases (index_of proxy_id pf.proxies id)) [
  | inl e ↦
      let missing : (remove_proxy pf id).1 ≡ err_not_found = rw (e, remove_proxy) refl in
      absurd (ground arith)
  | inr (i, e) ↦ rw (e, remove_proxy) refl
]

-- After the successful removal of a proxy that a proxy rule of the profile targets, the
-- validation of the profile fails.
pub remove_proxy-validate :
    (pf : Profile) (i : ℕ) (r : Rule)
    → get_elem? pf.rules i ≡ some r
    → r.action ≡ proxy
    → r.target_kind ≡ proxy_target
    → (remove_proxy pf r.target_id).1 ≡ ok
    → validate (remove_proxy pf r.target_id).0 ≡ err_parse
unfolding validate
remove_proxy-validate pf i r h a k done =
    let pf' = (remove_proxy pf r.target_id).0 in
    let rules : pf'.rules ≡ map (forget_proxy r.target_id) pf.rules =
      remove_proxy-rules pf r.target_id done in
    let bad : validate_rules pf' pf'.rules ≡ err_parse =
      ap (validate_rules pf') rules
      ∙ validate_rules-map pf' (forget_proxy r.target_id) pf.rules i r h
          (forget_proxy-broken pf' r a k) in
    rw (bad, validate) refl
