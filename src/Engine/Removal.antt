-- ===== src/Engine/Removal.antt =====
-- src/core/pmx_profile.c: what the removal of a proxy does to the decisions.
use proxi_might.Prelude.{
  ◌⊎◌, ℕ, zero, suc, ◌<◌, ◌≡◌, ◌≢◌, refl, ap, ◌∙◌, Bool, true, false, Option, none, some, List, [],
  ◌∷◌, map, ◌==◌, if◌then◌else◌, length, take, erase_at, arith, inl, inr, Bool-cases, Option-cases,
}
use proxi_might.Prelude.Arrays.{remove_at, remove_at-eq-erase_at}
use proxi_might.Proxy.{Proxy}
use proxi_might.Status.{ok, err_not_found}
use proxi_might.Chain.{Chain, ChainMode, sequential, max_chain_hops}
use proxi_might.Rule.{chain_target}
use proxi_might.Profile.{Profile, find_id, index_of, proxy_id, chain_id}
use proxi_might.Profile.Edits.{
  find_proxy-zero, find_proxy, find_chain, remove_proxy, drop_hop, fixed_hops, gap_hop,
}
use proxi_might.Engine.Resolve.{usable_hops, with_hop, next_hop, via_by, via_chain, via_of}

index_of-lt :
    {A : Type 0} (id_of : A → ℕ) (xs : List A) (id i : ℕ)
    → index_of id_of xs id ≡ some i
    → i < length xs
unfolding index_of
index_of-lt id_of [] id i h = cc
index_of-lt id_of (x ∷ xs) id i h = elim (Option-cases (index_of id_of xs id)) [
  | inl n ↦ ground arith
  | inr (j, n) ↦ ground (arith, index_of-lt id_of xs id j n)
]

index_of-tail :
    {A : Type 0} (id_of : A → ℕ) (x : A) (xs : List A) (id i : ℕ)
    → index_of id_of (x ∷ xs) id ≡ some (suc i)
    → index_of id_of xs id ≡ some i
unfolding index_of
index_of-tail id_of x xs id i e = elim (Option-cases (index_of id_of xs id)) [
  | inl n ↦ ground arith
  | inr (j, n) ↦ ground arith
]

find_id-erase :
    {A : Type 0} (id_of : A → ℕ) (xs : List A) (id i h : ℕ)
    → index_of id_of xs id ≡ some i
    → h ≢ id
    → find_id id_of (erase_at xs i) h ≡ find_id id_of xs h
unfolding index_of find_id
find_id-erase id_of [] id i h e ne = cc
find_id-erase id_of (x ∷ xs) id zero h e ne = elim (Option-cases (index_of id_of xs id)) [
  | inl n ↦ ground arith
  | inr (j, n) ↦ ground arith
]
find_id-erase id_of (x ∷ xs) id (suc i) h e ne =
    let tail : find_id id_of (erase_at xs i) h ≡ find_id id_of xs h =
      find_id-erase id_of xs id i h (index_of-tail id_of x xs id i e) ne in
    ap (λ o. if id_of x == h then some x else o) tail

-- Another proxy is found as before.
find_proxy-remove :
    (pf : Profile) (id h : ℕ)
    → (remove_proxy pf id).1 ≡ ok
    → h ≢ id
    → find_proxy (remove_proxy pf id).0 h ≡ find_proxy pf h
unfolding remove_proxy find_proxy
find_proxy-remove pf id h done ne = elim (Option-cases (index_of proxy_id pf.proxies id)) [
  | inl e ↦ rw (e, remove_proxy) refl
  | inr (i, e) ↦
      let rest : find_id proxy_id (remove_at pf.proxies i) h ≡ find_id proxy_id pf.proxies h =
        rw (remove_at-eq-erase_at pf.proxies i (index_of-lt proxy_id pf.proxies id i e))
          (find_id-erase proxy_id pf.proxies id i h e ne) in
      rw (e, remove_proxy) (ap (λ o. if h == 0 then none else o) rest)
]

with_hop-none : (b : Bool) (p : Proxy) → with_hop b p none ≡ none
with_hop-none true p = refl
with_hop-none false p = refl

next_hop-none : (o : Option Proxy) → next_hop o none ≡ none
next_hop-none none = refl
next_hop-none (some p) = with_hop-none p.enabled p

-- A path with the removed proxy in it is given up; any other is resolved as before.
usable_hops-gap_hop :
    (pf : Profile) (id : ℕ) (hs : List ℕ)
    → (remove_proxy pf id).1 ≡ ok
    → (usable_hops (remove_proxy pf id).0 (gap_hop id hs) ≡ none)
      ⊎ (usable_hops (remove_proxy pf id).0 (gap_hop id hs) ≡ usable_hops pf hs)
unfolding usable_hops gap_hop
usable_hops-gap_hop pf id [] done = inr refl
usable_hops-gap_hop pf id (h ∷ hs) done =
    let pf' = (remove_proxy pf id).0 in
    let rest = usable_hops pf' (gap_hop id hs) in
    elim (Bool-cases (h == id)) [
      | inl e ↦ inl (
          ap (λ (b : Bool). next_hop (find_proxy pf' (if b then 0 else h)) rest) e
          ∙ ap (λ o. next_hop o rest) (find_proxy-zero pf'))
      | inr e ↦
          let here : usable_hops pf' (gap_hop id (h ∷ hs)) ≡ next_hop (find_proxy pf h) rest =
            ap (λ (b : Bool). next_hop (find_proxy pf' (if b then 0 else h)) rest) e
            ∙ ap (λ o. next_hop o rest) (find_proxy-remove pf id h done (ground arith)) in
          elim (usable_hops-gap_hop pf id hs done) [
            | inl n ↦
                inl (here ∙ ap (next_hop (find_proxy pf h)) n ∙ next_hop-none (find_proxy pf h))
            | inr n ↦ inr (here ∙ ap (next_hop (find_proxy pf h)) n)
          ]
    ]

gap_hop-take : (n id : ℕ) (hs : List ℕ) → take n (gap_hop id hs) ≡ gap_hop id (take n hs)
unfolding gap_hop
gap_hop-take zero id hs = refl
gap_hop-take (suc n) id [] = refl
gap_hop-take (suc n) id (h ∷ hs) = ap (λ t. (if h == id then 0 else h) ∷ t) (gap_hop-take n id hs)

length-gap_hop : (id : ℕ) (hs : List ℕ) → length (gap_hop id hs) ≡ length hs
unfolding gap_hop
length-gap_hop id [] = refl
length-gap_hop id (h ∷ hs) = ap suc (length-gap_hop id hs)

via_by-none : (e : Bool) (m : ChainMode) (n : ℕ) → (via_by e m n none).0 ≡ []
via_by-none e m n = ground arith

-- The chain with a gap where the removed proxy was.
via_chain-gap_hop :
    (pf : Profile) (id : ℕ) (c : Chain)
    → (remove_proxy pf id).1 ≡ ok
    → ((via_chain (remove_proxy pf id).0 (record c { hops = gap_hop id c.hops })).0 ≡ [])
      ⊎ (via_chain (remove_proxy pf id).0 (record c { hops = gap_hop id c.hops }) ≡ via_chain pf c)
unfolding via_chain
via_chain-gap_hop pf id c done =
    let pf' = (remove_proxy pf id).0 in
    let cut = ap (usable_hops pf') (gap_hop-take max_chain_hops id c.hops) in
    let by = via_by c.enabled c.mode in
    elim (usable_hops-gap_hop pf id (take max_chain_hops c.hops) done) [
      | inl n ↦ inl (
          ap (λ (o : Option (List Proxy)). (by (length (gap_hop id c.hops)) o).0) (cut ∙ n)
          ∙ via_by-none c.enabled c.mode (length (gap_hop id c.hops)))
      | inr n ↦ inr (
          ap (by (length (gap_hop id c.hops))) (cut ∙ n)
          ∙ ap (λ k. by k (usable_hops pf (take max_chain_hops c.hops))) (length-gap_hop id c.hops))
    ]

drop_hop-gap_hop :
    (id : ℕ) (c : Chain)
    → c.mode ≡ sequential
    → drop_hop id c ≡ record c { hops = gap_hop id c.hops }
unfolding drop_hop fixed_hops
drop_hop-gap_hop id c m = ap (λ (d : ChainMode). record c { hops = fixed_hops id d c.hops }) m

find_id-map :
    (id t : ℕ) (cs : List Chain) (c : Chain)
    → find_id chain_id cs t ≡ some c
    → find_id chain_id (map (drop_hop id) cs) t ≡ some (drop_hop id c)
unfolding find_id drop_hop
find_id-map id t [] c h = cc
find_id-map id t (x ∷ cs) c h =
    let rest = find_id chain_id (map (drop_hop id) cs) t in
    elim (Bool-cases (x.id == t)) [
      | inl e ↦
          let same : x ≡ c = grind arith in
          ap (λ (b : Bool). if b then some (drop_hop id x) else rest) e
          ∙ ap (λ (y : Chain). some (drop_hop id y)) same
      | inr e ↦
          ap (λ (b : Bool). if b then some (drop_hop id x) else rest) e
          ∙ find_id-map id t cs c (grind arith)
    ]

find_chain-remove :
    (pf : Profile) (id t : ℕ) (c : Chain)
    → (remove_proxy pf id).1 ≡ ok
    → find_chain pf t ≡ some c
    → find_chain (remove_proxy pf id).0 t ≡ some (drop_hop id c)
unfolding remove_proxy find_chain
find_chain-remove pf id t c done h = elim (Option-cases (index_of proxy_id pf.proxies id)) [
  | inl e ↦
      let missing : (remove_proxy pf id).1 ≡ err_not_found = rw (e, remove_proxy) refl in
      absurd (ground arith)
  | inr (i, e) ↦ rw (e, remove_proxy) (find_id-map id t pf.chains c h)
]

-- After the successful removal of a proxy, a sequential chain is resolved to no proxy at all or
-- to the same proxies as before, so that a path never becomes shorter.
pub remove_proxy_path :
    (pf : Profile) (id t : ℕ) (c : Chain)
    → (remove_proxy pf id).1 ≡ ok
    → find_chain pf t ≡ some c
    → c.mode ≡ sequential
    → ((via_of (remove_proxy pf id).0 chain_target t).0 ≡ [])
      ⊎ (via_of (remove_proxy pf id).0 chain_target t ≡ via_of pf chain_target t)
unfolding via_of
remove_proxy_path pf id t c done h m =
    let found = find_chain-remove pf id t c done h ∙ ap some (drop_hop-gap_hop id c m) in
    rw (found, via_of) (rw (h, via_of) (via_chain-gap_hop pf id c done))
