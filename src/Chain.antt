-- ===== src/Chain.antt =====
-- include/proximight/pmx_chain.h and src/core/pmx_chain.c: a chain of proxies.
use proxi_might.Prelude.{
  ℕ, Bool, true, ◌||◌, not, List, [], ◌∷◌, ◌++◌, ltb, leb, ◌==◌, if◌then◌else◌, length, get_elem?,
  none, some,
}
use proxi_might.Prelude.Bytes.{Bytes, codes}
use proxi_might.Prelude.Arrays.{remove_at, move_to}
use proxi_might.Status.{Status, ok, err_invalid_arg, err_state}
pub mod Moves
mod Tests

pub data ChainMode : Type 0 where
  sequential redundancy : ChainMode

-- `hops` is the part of the source's array of `max_chain_hops` below `hop_count`.
pub record Chain : Type 0 where
  pub id : ℕ
  pub label : Bytes
  pub mode : ChainMode
  pub hops : List ℕ
  pub enabled : Bool

abbrev pub max_chain_hops : ℕ
max_chain_hops = 8

unfoldable pub init : Chain
init = record { id = 0; label = codes "New chain"; mode = sequential; hops = []; enabled = true }

-- `PMX_ID_NONE` is 0.
unfoldable pub add_hop : Chain → ℕ → Chain × Status
add_hop c proxy_id =
    if proxy_id == 0
    then (c, err_invalid_arg)
    else if leb max_chain_hops (length c.hops)
    then (c, err_state)
    else (record c { hops = c.hops ++ proxy_id ∷ [] }, ok)

unfoldable pub remove_hop : Chain → ℕ → Chain × Status
remove_hop c index =
    if leb (length c.hops) index
    then (c, err_invalid_arg)
    else (record c { hops = remove_at c.hops index }, ok)

-- The element that stands at `from`, which the guards show to be there.
moved_hop : Chain → ℕ → ℕ → Chain
moved_hop c from to = elim (get_elem? c.hops from) [
  | none ↦ c
  | some moved ↦ record c { hops = move_to c.hops from to moved }
]

unfoldable pub move_hop : Chain → ℕ → ℕ → Chain × Status
unfolding moved_hop
move_hop c from to =
    if leb (length c.hops) from || leb (length c.hops) to
    then (c, err_invalid_arg)
    else if from == to
    then (c, ok)
    else (moved_hop c from to, ok)
