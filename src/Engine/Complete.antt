-- ===== src/Engine/Complete.antt =====
-- src/core/pmx_engine.c: the proxies of a decision, and those that its target asks for.
use proxi_might.Prelude.{
  false, take_all, ◌⊎◌, ℕ, suc, ◌≤◌, ◌≡◌, refl, sym, ap, ◌∙◌, Bool, true, none, some, List, [], ◌∷◌,
  ◌==◌, length, All, arith, inl, inr, Bool-cases, Option-cases,
}
use proxi_might.Proxy.{Proxy}
use proxi_might.Chain.{Chain, ChainMode, sequential, redundancy, max_chain_hops}
use proxi_might.Rule.{
  Rule, Action, TargetKind, ConnQuery, direct, proxy, block, no_target, proxy_target, chain_target,
}
use proxi_might.Profile.{Profile, find_id, chain_id}
use proxi_might.Chain.Moves.{FitsArray}
use proxi_might.Profile.Edits.{find_proxy, find_chain}
use proxi_might.Engine.Resolve.{
  via_by, Decision, usable_hops, with_hop, via_chain, via_proxy, via_of, decision_of, decision_by,
  resolve_with_profile, first_match,
}

-- An id that names no proxy, or one that is not enabled.
abbrev pub NotUsable : Profile → ℕ → Type 0
NotUsable pf id =
    (find_proxy pf id ≡ none) ⊎ ((p : Proxy) × (find_proxy pf id ≡ some p) × (p.enabled ≡ false))

abbrev pub AnyNotUsable : Profile → List ℕ → Type 0
AnyNotUsable pf [] = ⊥
AnyNotUsable pf (h ∷ hs) = NotUsable pf h ⊎ AnyNotUsable pf hs

-- The hops in the order of the list, each the enabled proxy that the id names.
abbrev pub AreHops : Profile → List ℕ → List Proxy → Type 0
AreHops pf [] [] = Unit
AreHops pf (h ∷ hs) (p ∷ ps) = (find_proxy pf h ≡ some p) × (p.enabled ≡ true) × AreHops pf hs ps
AreHops pf _ _ = ⊥

-- The hops that a chain with usable hops asks for, and their number: all of them one after the
-- other, or the first of the alternatives.
abbrev pub asked : ChainMode → List Proxy → List Proxy × ℕ
asked sequential ps = (ps, length ps)
asked redundancy [] = ([], 0)
asked redundancy (p ∷ ps) = (p ∷ [], 1)

-- What a chain in use gives: a hop that is not usable leaves none of them, and their number.
abbrev pub IsChainRoute : Profile → ChainMode → List ℕ → List Proxy × ℕ → Type 0
IsChainRoute pf mode hs r =
    ((ps : List Proxy) × AreHops pf hs ps × (r ≡ asked mode ps))
    ⊎ (AnyNotUsable pf hs × (r ≡ ([], length hs)))

-- The proxies that a target asks for, and how many it asks for.
abbrev pub IsRoute : Profile → TargetKind → ℕ → List Proxy × ℕ → Type 0
IsRoute pf no_target id r = r ≡ ([], 0)
IsRoute pf proxy_target id r =
    ((p : Proxy) × (find_proxy pf id ≡ some p) × (p.enabled ≡ true) × (r ≡ (p ∷ [], 1)))
    ⊎ (NotUsable pf id × (r ≡ ([], 1)))
IsRoute pf chain_target id r =
    ((find_chain pf id ≡ none) × (r ≡ ([], 0)))
    ⊎ ((c : Chain) × (find_chain pf id ≡ some c)
        × (((c.enabled ≡ false) × (r ≡ ([], 0)))
            ⊎ ((c.enabled ≡ true) × IsChainRoute pf c.mode c.hops r)))

-- The hops are resolved all together or not at all.
pub usable_hops_cases :
    (pf : Profile) (hs : List ℕ)
    → (AnyNotUsable pf hs × (usable_hops pf hs ≡ none))
      ⊎ ((ps : List Proxy) × (usable_hops pf hs ≡ some ps) × AreHops pf hs ps)
unfolding usable_hops
usable_hops_cases pf [] = inr ([], refl, tt)
usable_hops_cases pf (i ∷ hs) = elim (Option-cases (find_proxy pf i)) [
  | inl e ↦ inl (inl (inl e), rw (e, usable_hops) refl)
  | inr (p, e) ↦ elim (Bool-cases p.enabled) [
    | inl on ↦
        let here : usable_hops pf (i ∷ hs) ≡ with_hop true p (usable_hops pf hs) =
          rw (e, usable_hops) (ap (λ (b : Bool). with_hop b p (usable_hops pf hs)) on) in
        elim (usable_hops_cases pf hs) [
          | inl (broken, n) ↦ inl (inr broken, here ∙ ap (with_hop true p) n)
          | inr (ps, n, v) ↦ inr (p ∷ ps, here ∙ ap (with_hop true p) n, (e, on, v))
        ]
    | inr off ↦ inl (
      inl (inr (p, e, off)),
      rw (e, usable_hops) (ap (λ (b : Bool). with_hop b p (usable_hops pf hs)) off),
    )
  ]
]

AreHops-length :
    (pf : Profile) (hs : List ℕ) (ps : List Proxy) → AreHops pf hs ps → length hs ≡ length ps
AreHops-length pf [] [] v = refl
AreHops-length pf [] (p ∷ ps) v = absurd v
AreHops-length pf (h ∷ hs) [] v = absurd v
AreHops-length pf (h ∷ hs) (p ∷ ps) (e, on, v) = ap suc (AreHops-length pf hs ps v)

via_by-asked :
    (mode : ChainMode) (ps : List Proxy) → via_by true mode (length ps) (some ps) ≡ asked mode ps
via_by-asked sequential [] = refl
via_by-asked sequential (p ∷ ps) = ground arith
via_by-asked redundancy [] = refl
via_by-asked redundancy (p ∷ []) = ground arith
via_by-asked redundancy (p ∷ p' ∷ ps) = ground arith

via_by-none : (mode : ChainMode) (n : ℕ) → via_by true mode n none ≡ ([], n)
via_by-none sequential n = ground arith
via_by-none redundancy n = ground arith

via_chain-IsRoute :
    (pf : Profile) (c : Chain)
    → length c.hops ≤ max_chain_hops
    → c.enabled ≡ true
    → IsChainRoute pf c.mode c.hops (via_chain pf c)
unfolding via_chain
via_chain-IsRoute pf c fits on = elim (usable_hops_cases pf c.hops) [
  | inl (broken, n) ↦
      inr (
        broken,
        rw (take_all max_chain_hops c.hops fits, n, on) (via_by-none c.mode (length c.hops)),
      )
  | inr (ps, n, v) ↦ inl (
    ps,
    v,
    rw (take_all max_chain_hops c.hops fits, n, on, AreHops-length pf c.hops ps v)
        (via_by-asked c.mode ps),
  )
]

via_proxy-IsRoute : (pf : Profile) (id : ℕ) → IsRoute pf proxy_target id (via_proxy pf id)
unfolding via_proxy
via_proxy-IsRoute pf id = elim (Option-cases (find_proxy pf id)) [
  | inl e ↦ inr (inl e, rw (e, via_proxy) refl)
  | inr (p, e) ↦ elim (Bool-cases p.enabled) [
    | inl on ↦ inl (p, e, on, rw (e, via_proxy) (rw on refl))
    | inr off ↦ inr (inr (p, e, off), rw (e, via_proxy) (rw off refl))
  ]
]

find_id-All :
    {A : Type 0} (P : A → Type 0) (id_of : A → ℕ) (xs : List A) (id : ℕ) (a : A)
    → All P xs
    → find_id id_of xs id ≡ some a
    → P a
unfolding find_id
find_id-All P id_of [] id a v h = cc
find_id-All P id_of (x ∷ xs) id a (v, vs) h = elim (Bool-cases (id_of x == id)) [
  | inl e ↦ let same : x ≡ a = grind arith in rw (sym same) v
  | inr e ↦ find_id-All P id_of xs id a vs (grind arith)
]

find_chain-FitsArray :
    (pf : Profile) (id : ℕ) (c : Chain)
    → All FitsArray pf.chains
    → find_chain pf id ≡ some c
    → FitsArray c
unfolding find_chain
find_chain-FitsArray pf id c fits e = find_id-All FitsArray chain_id pf.chains id c fits e

via_of-IsRoute :
    (pf : Profile) (kind : TargetKind) (id : ℕ)
    → All FitsArray pf.chains
    → IsRoute pf kind id (via_of pf kind id)
unfolding via_of
via_of-IsRoute pf no_target id fits = refl
via_of-IsRoute pf proxy_target id fits = via_proxy-IsRoute pf id
via_of-IsRoute pf chain_target id fits = elim (Option-cases (find_chain pf id)) [
  | inl e ↦ inl (e, rw (e, via_of) refl)
  | inr (c, e) ↦ elim (Bool-cases c.enabled) [
    | inl on ↦ inr (
      c,
      e,
      inr (
        on,
        rw (e, via_of) (via_chain-IsRoute pf c (find_chain-FitsArray pf id c fits e).fits on),
      ),
    )
    | inr off ↦ inr (c, e, inl (off, rw (e, via_of) (unfold via_chain in rw off refl)))
  ]
]

-- The proxies and their number are those that the decision's target asks for.
pub record IsComplete (pf : Profile) (d : Decision) : Type 0 where
  pub route : IsRoute pf d.target_kind d.target_id (d.via, d.via_hop_count)

decision_by-IsComplete :
    (a : Action) (pf : Profile) (r : Rule)
    → All FitsArray pf.chains
    → IsComplete pf (decision_by a pf r)
unfolding decision_by
decision_by-IsComplete direct pf r fits = record { route = refl }
decision_by-IsComplete block pf r fits = record { route = refl }
decision_by-IsComplete proxy pf r fits = record {
  route = via_of-IsRoute pf r.target_kind r.target_id fits;
}

decision_of-IsComplete :
    (pf : Profile) (r : Rule) → All FitsArray pf.chains → IsComplete pf (decision_of pf r)
unfolding decision_of
decision_of-IsComplete pf r fits = decision_by-IsComplete r.action pf r fits

-- In a profile none of whose chains has more than 8 hops, a decision names the proxies that its
-- target asks for: the proxy, all hops of a sequential chain in order or the first of a
-- redundancy chain, if each proxy of the target is found and enabled; it names none, and still
-- their number, if one is not, and none and 0 without a target or for a chain that is missing or
-- disabled.
pub resolve-IsComplete :
    (pf : Profile) (q : ConnQuery)
    → All FitsArray pf.chains
    → IsComplete pf (resolve_with_profile pf q)
unfolding resolve_with_profile
resolve-IsComplete pf q fits = elim (Option-cases (first_match pf.rules q)) [
  | inl e ↦ rw (e, resolve_with_profile) (decision_of-IsComplete pf pf.default_rule fits)
  | inr (r, e) ↦ rw (e, resolve_with_profile) (decision_of-IsComplete pf r fits)
]
