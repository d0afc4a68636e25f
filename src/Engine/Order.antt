-- ===== src/Engine/Order.antt =====
-- src/core/pmx_engine.c: the order of the rules in a decision.
use proxi_might.Prelude.{
  ◌∙◌, ◌≡◌, refl, ap, Bool, true, false, ◌&&◌, none, some, List, [], ◌∷◌, ◌++◌, if◌then◌else◌, All,
}
use proxi_might.Rule.{Rule, ConnQuery, rule_matches}
use proxi_might.Profile.{Profile}
use proxi_might.Engine.Resolve.{first_match, decision_of, resolve_with_profile}

-- The rule is enabled and matches.
abbrev pub fires : ConnQuery → Rule → Bool
fires q r = r.enabled && rule_matches r q

abbrev pub IsPassedOver : ConnQuery → Rule → Type 0
IsPassedOver q r = fires q r ≡ false

first_match-append :
    (before after : List Rule) (r : Rule) (q : ConnQuery)
    → All (IsPassedOver q) before
    → fires q r ≡ true
    → first_match (before ++ r ∷ after) q ≡ some r
unfolding first_match
first_match-append [] after r q v h = ap (λ (b : Bool). if b then some r else first_match after q) h
first_match-append (x ∷ before) after r q (v, vs) h =
    rw (ap (λ (b : Bool). if b then some x else first_match (before ++ r ∷ after) q) v)
      (first_match-append before after r q vs h)

first_match-none :
    (rs : List Rule) (q : ConnQuery) → All (IsPassedOver q) rs → first_match rs q ≡ none
unfolding first_match
first_match-none [] q v = refl
first_match-none (x ∷ rs) q (v, vs) =
    rw (ap (λ (b : Bool). if b then some x else first_match rs q) v) (first_match-none rs q vs)

-- The first rule in the list that is enabled and matches the connection makes the decision.
pub resolve_by_first :
    (pf : Profile) (before after : List Rule) (r : Rule) (q : ConnQuery)
    → pf.rules ≡ before ++ r ∷ after
    → All (IsPassedOver q) before
    → fires q r ≡ true
    → resolve_with_profile pf q ≡ decision_of pf r
unfolding resolve_with_profile
resolve_by_first pf before after r q e v h =
    let m : first_match pf.rules q ≡ some r =
      ap (λ rs. first_match rs q) e ∙ first_match-append before after r q v h in
    rw (m, resolve_with_profile) refl

-- Where no rule is enabled and matches the connection, the default rule makes the decision.
pub resolve_by_default :
    (pf : Profile) (q : ConnQuery)
    → All (IsPassedOver q) pf.rules
    → resolve_with_profile pf q ≡ decision_of pf pf.default_rule
unfolding resolve_with_profile
resolve_by_default pf q v = rw (first_match-none pf.rules q v, resolve_with_profile) refl
