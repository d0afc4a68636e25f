-- ===== src/Chain/Tests.antt =====
-- Chains evaluated, and the lemmas on their edits applied.
use proxi_might.Prelude.{◌≡◌, refl, [], ◌∷◌, true, arith}
use proxi_might.Prelude.Bytes.{codes}
use proxi_might.Prelude.Arrays.{move_to, remove_at}
use proxi_might.Status.{ok, err_invalid_arg, err_state}
use proxi_might.Chain.{Chain, sequential, add_hop, remove_hop, move_hop}
use proxi_might.Chain.Moves.{FitsArray, move_hop_lem, move_hop_back, edits-FitsArray}

abbrev three : Chain
three = record {
  id = 4;
  label = codes "x";
  mode = sequential;
  hops = 1 ∷ 2 ∷ 3 ∷ [];
  enabled = true;
}

move_down : move_hop three 0 2 ≡ (record three { hops = 2 ∷ 3 ∷ 1 ∷ [] }, ok)
unfolding move_hop move_to
move_down = refl

move_up : move_hop three 2 0 ≡ (record three { hops = 3 ∷ 1 ∷ 2 ∷ [] }, ok)
unfolding move_hop move_to
move_up = refl

remove_middle : remove_hop three 1 ≡ (record three { hops = 1 ∷ 3 ∷ [] }, ok)
unfolding remove_hop remove_at
remove_middle = refl

refuses_none : add_hop three 0 ≡ (three, err_invalid_arg)
unfolding add_hop
refuses_none = refl

refuses_ninth :
    add_hop (record three { hops = 1 ∷ 2 ∷ 3 ∷ 4 ∷ 5 ∷ 6 ∷ 7 ∷ 8 ∷ [] }) 9
    ≡ (record three { hops = 1 ∷ 2 ∷ 3 ∷ 4 ∷ 5 ∷ 6 ∷ 7 ∷ 8 ∷ [] }, err_state)
unfolding add_hop
refuses_ninth = refl

move_hop_lem_example : move_hop three 0 2 ≡ (record three { hops = 2 ∷ 3 ∷ 1 ∷ [] }, ok)
move_hop_lem_example = move_hop_lem three 0 2 1 (omega arith) refl

move_hop_back_example : move_hop (move_hop three 0 2).0 2 0 ≡ (three, ok)
move_hop_back_example = move_hop_back three 0 2 (omega arith) (omega arith)

edits-FitsArray_example :
    FitsArray (add_hop three 7).0
    × FitsArray (remove_hop three 1).0
    × FitsArray (move_hop three 0 2).0
edits-FitsArray_example = edits-FitsArray three 7 1 0 2 (record { fits = omega arith })
