-- ===== src/Chain/Moves.antt =====
-- src/core/pmx_chain.c: what the edits of a chain do to its hops.
use proxi_might.Prelude.{
  true, ◌||◌, dec_lt, false, erase_at-append, lt_of_get_elem?, ℕ, ◌+◌, ◌≤◌, ◌<◌, ◌≡◌, ◌≢◌, ap, ◌∙◌,
  [], ◌∷◌, ◌++◌, some, arith, inl, inr, leb, ◌==◌, Bool-cases, length, get_elem?, erase_at,
  insert_at, length-append, length-erase_at, length-insert_at, get_elem?-some, get_elem?-insert_at,
  erase_at-insert_at, insert_at-erase_at,
}
use proxi_might.Prelude.Arrays.{remove_at-eq-erase_at, move_to-eq-insert_at}
use proxi_might.Status.{ok}
use proxi_might.Chain.{Chain, max_chain_hops, add_hop, remove_hop, moved_hop, move_hop}

-- A chain has no more hops than its array has places.
pub record FitsArray (c : Chain) : Type 0 where
  pub fits : length c.hops ≤ max_chain_hops

pub add_hop_lem :
    (c : Chain) (p : ℕ)
    → p ≢ 0
    → length c.hops < max_chain_hops
    → add_hop c p ≡ (record c { hops = c.hops ++ p ∷ [] }, ok)
unfolding add_hop
add_hop_lem c p hp h = ground arith

pub add_hop-FitsArray : (c : Chain) (p : ℕ) → FitsArray c → FitsArray (add_hop c p).0
unfolding add_hop
add_hop-FitsArray c p v = record { fits = ground (arith, length-append c.hops (p ∷ [])) }

remove_hop_lem :
    (c : Chain) (i : ℕ)
    → i < length c.hops
    → remove_hop c i ≡ (record c { hops = erase_at c.hops i }, ok)
unfolding remove_hop
remove_hop_lem c i h =
    let e : leb (length c.hops) i ≡ false = ground arith in rw (e, remove_at-eq-erase_at c.hops i h)

-- A move between two places of a chain succeeds and gives the list without the hop, with the hop
-- put in at the new place.
pub move_hop_lem :
    (c : Chain) (from to v : ℕ)
    → to < length c.hops
    → get_elem? c.hops from ≡ some v
    → move_hop c from to ≡ (record c { hops = insert_at (erase_at c.hops from) to v }, ok)
unfolding move_hop
move_hop_lem c from to v ht hv =
    let hf = lt_of_get_elem? c.hops from v hv in
    let f : leb (length c.hops) from ≡ false = ground arith in
    let t : leb (length c.hops) to ≡ false = ground arith in
    rw (f, t)
      (elim (Bool-cases (from == to)) [
        | inl e ↦
            let same : from ≡ to = ground arith in
            rw (e, ← same, insert_at-erase_at c.hops from v hv)
        | inr e ↦ rw (e, hv, moved_hop, move_to-eq-insert_at c.hops from to v hf ht)
      ])

remove_hop-FitsArray : (c : Chain) (i : ℕ) → FitsArray c → FitsArray (remove_hop c i).0
remove_hop-FitsArray c i v = elim (dec_lt i (length c.hops)) [
  | yes h ↦ record { fits = rw (remove_hop_lem c i h) (omega (arith, length-erase_at c.hops i h)) }
  | no h ↦
      let e : leb (length c.hops) i ≡ true = ground arith in
      unfold remove_hop in record { fits = rw e v.fits }
]

move_hop-FitsArray : (c : Chain) (from to : ℕ) → FitsArray c → FitsArray (move_hop c from to).0
move_hop-FitsArray c from to v =
    elim (Bool-cases (leb (length c.hops) from || leb (length c.hops) to)) [
      | inl e ↦ unfold move_hop in record { fits = rw e v.fits }
      | inr e ↦
          let hf : from < length c.hops = ground arith in
          let (w, hv) = get_elem?-some c.hops from hf in
          let n = length-erase_at c.hops from hf in
          record {
            fits =
                rw (move_hop_lem c from to w (ground arith) hv)
                  (omega (arith, length-insert_at (erase_at c.hops from) to w));
          }
    ]

-- In a chain with room, removing a hop that was just added at the end leaves the chain as it was;
-- the hop's id is not 0.
pub remove_hop-add_hop :
    (c : Chain) (p : ℕ)
    → p ≢ 0
    → length c.hops < max_chain_hops
    → remove_hop (add_hop c p).0 (length c.hops) ≡ (c, ok)
remove_hop-add_hop c p hp h =
    let added = record c { hops = c.hops ++ p ∷ [] } in
    rw (add_hop_lem c p hp h) (
      remove_hop_lem added (length c.hops) (omega (arith, length-append c.hops (p ∷ [])))
      ∙ ap (λ t. (record c { hops = t }, ok)) (erase_at-append c.hops p))

-- A move between two places of a chain, followed by the move back, leaves the chain as it was.
pub move_hop_back :
    (c : Chain) (from to : ℕ)
    → from < length c.hops
    → to < length c.hops
    → move_hop (move_hop c from to).0 to from ≡ (c, ok)
move_hop_back c from to hf ht =
    let (v, hv) = get_elem?-some c.hops from hf in
    let rest = erase_at c.hops from in
    let n : length rest + 1 ≡ length c.hops = length-erase_at c.hops from hf in
    let moved = record c { hops = insert_at rest to v } in
    let back : move_hop moved to from
        ≡ (record moved { hops = insert_at (erase_at moved.hops to) from v }, ok) =
      move_hop_lem moved to from v (omega (arith, length-insert_at rest to v))
        (get_elem?-insert_at rest to v (omega arith)) in
    rw (move_hop_lem c from to v ht hv)
      (back ∙ rw (erase_at-insert_at rest to v (omega arith), insert_at-erase_at c.hops from v hv))

-- Adding, removing or moving a hop never makes a chain longer than its array of 8 hops if it was
-- not before.
pub edits-FitsArray :
    (c : Chain) (p i from to : ℕ)
    → FitsArray c
    → FitsArray (add_hop c p).0 × FitsArray (remove_hop c i).0 × FitsArray (move_hop c from to).0
edits-FitsArray c p i from to v =
    (add_hop-FitsArray c p v, remove_hop-FitsArray c i v, move_hop-FitsArray c from to v)
