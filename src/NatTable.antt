-- ===== src/NatTable.antt =====
-- include/proximight/pmx_nat.h and src/core/pmx_nat.c: the table that maps a local port to the
-- destination an application asked for. The source takes the table's mutex in each operation, so an
-- operation is one step. A clock value is in milliseconds.
use proxi_might.Prelude.{
  ℕ, zero, suc, ◌+◌, ◌-◌, Bool, true, false, ◌||◌, ◌&&◌, not, Option, none, some, List, [], ◌∷◌,
  ltb, ◌==◌, if◌then◌else◌, get_elem?, set, replicate,
}
use proxi_might.Prelude.Decimal.{positive_or, ℤ, pos, negsuc}
use proxi_might.Status.{Status, ok, err_invalid_arg, err_state}
pub mod Slots
pub mod Valid
pub mod Choosing
pub mod Flows
pub mod Survival
mod Tests

pub record Entry : Type 0 where
  pub src_addr : ℕ
  pub src_port : ℕ
  pub orig_dst_addr : ℕ
  pub orig_dst_port : ℕ
  pub created_ms : ℕ

pub record Slot : Type 0 where
  pub used : Bool
  pub closed : Bool
  pub last_seen_ms : ℕ
  pub e : Entry

-- The capacity is the number of slots.
pub record Table : Type 0 where
  pub slots : List Slot
  pub count : ℕ
  pub ttl_ms : ℕ

abbrev pub zero_entry : Entry
zero_entry = record {
  src_addr = 0;
  src_port = 0;
  orig_dst_addr = 0;
  orig_dst_port = 0;
  created_ms = 0;
}

abbrev pub zero_slot : Slot
zero_slot = record { used = false; closed = false; last_seen_ms = 0; e = zero_entry }

-- pmx_nat_create, where the allocations succeed
unfoldable pub create : ℕ → ℤ → Table
create capacity ttl_ms = record {
  slots = replicate (if capacity == 0 then 512 else capacity) zero_slot;
  count = 0;
  ttl_ms = positive_or ttl_ms 120000;
}

unfoldable pub expired : ℕ → Slot → ℕ → Bool
expired ttl s now_ms = ltb s.last_seen_ms now_ms && ltb ttl (now_ms - s.last_seen_ms)

-- The slot is used for the port.
abbrev pub holds : Slot → ℕ → Bool
holds s src_port = s.used && s.e.src_port == src_port

abbrev next_index : Option ℕ → Option ℕ
next_index none = none
next_index (some i) = some (suc i)

-- The index of the slot.
unfoldable pub find_slot : List Slot → ℕ → Option ℕ
find_slot [] src_port = none
find_slot (s ∷ ss) src_port =
    let rest = next_index (find_slot ss src_port) in if holds s src_port then some 0 else rest

-- What the loop of `pmx_nat_add` ends with: the first free slot, or the reclaimable slot that was
-- created first, with its time of creation.
pub data Choice : Type 0 where
  free : ℕ → Choice
  reclaim : Option (ℕ × ℕ) → Choice

abbrev older : ℕ → Option (ℕ × ℕ) → Bool
older created none = true
older created (some (_, c)) = ltb created c

unfoldable pub choose : ℕ → ℕ → List Slot → ℕ → Option (ℕ × ℕ) → Choice
choose ttl now_ms [] i best = reclaim best
choose ttl now_ms (s ∷ ss) i best =
    let best' =
      if (expired ttl s now_ms || s.closed) && older s.e.created_ms best
      then some (i, s.e.created_ms)
      else best in
    let rest = choose ttl now_ms ss (suc i) best' in if not s.used then free i else rest

abbrev pub fresh_slot : ℕ → ℕ → ℕ → ℕ → ℕ → Slot
fresh_slot src_addr src_port dst_addr dst_port now_ms = record {
  used = true;
  closed = false;
  last_seen_ms = now_ms;
  e = record {
    src_addr = src_addr;
    src_port = src_port;
    orig_dst_addr = dst_addr;
    orig_dst_port = dst_port;
    created_ms = now_ms;
  };
}

pub place : Table → Slot → Choice → Table × Status
place n s (free i) = (record n { slots = set n.slots i s; count = n.count + 1 }, ok)
place n s (reclaim (some (i, _))) = (record n { slots = set n.slots i s }, ok)
place n s (reclaim none) = (n, err_state)

-- pmx_nat_add
unfoldable pub add : Table → ℕ → ℕ → ℕ → ℕ → ℕ → Table × Status
unfolding place
add n src_addr src_port dst_addr dst_port now_ms =
    let s = fresh_slot src_addr src_port dst_addr dst_port now_ms in
    if src_port == 0 then (n, err_invalid_arg) else elim (find_slot n.slots src_port) [
      | some i ↦ (record n { slots = set n.slots i s }, ok)
      | none ↦ place n s (choose n.ttl_ms now_ms n.slots 0 none)
    ]

-- The lookup refreshes a flow that is not closed.
pub hit : Table → ℕ → Slot → ℕ → Table × Option Entry
hit n i s now_ms =
    if expired n.ttl_ms s now_ms
    then (n, none)
    else if s.closed
    then (n, some s.e)
    else (record n { slots = set n.slots i (record s { last_seen_ms = now_ms }) }, some s.e)

-- A use of the slot that `find_slot` found.
abbrev pub at_slot {ℓ} : {A : Type ℓ} → Table → ℕ → A → (ℕ → Slot → A) → A
at_slot n src_port d f = elim (find_slot n.slots src_port) [
  | none ↦ d
  | some i ↦ elim (get_elem? n.slots i) [ none ↦ d | some s ↦ f i s ]
]

-- pmx_nat_find; the entry is present where the source returns true
unfoldable pub find : Table → ℕ → ℕ → Table × Option Entry
unfolding hit
find n src_port now_ms =
    if src_port == 0 then (n, none) else at_slot n src_port (n, none) (λ i s. hit n i s now_ms)

-- pmx_nat_mark_closed
unfoldable pub mark_closed : Table → ℕ → Table
mark_closed n src_port =
    if src_port == 0
    then n
    else at_slot n src_port n
        (λ i s. record n { slots = set n.slots i (record s { closed = true }) })

-- pmx_nat_remove
unfoldable pub remove : Table → ℕ → Table
remove n src_port =
    at_slot n src_port n (λ i s. record n { slots = set n.slots i zero_slot; count = n.count - 1 })

pub expire_slots : ℕ → ℕ → List Slot → List Slot × ℕ
expire_slots ttl now_ms [] = ([], 0)
expire_slots ttl now_ms (s ∷ ss) =
    let (rest, dropped) = expire_slots ttl now_ms ss in
    if s.used && expired ttl s now_ms then (zero_slot ∷ rest, dropped + 1) else (s ∷ rest, dropped)

-- pmx_nat_expire; `count` goes down by one for each slot dropped, and stops at 0
unfoldable pub expire : Table → ℕ → Table × ℕ
unfolding expire_slots
expire n now_ms =
    let (slots, dropped) = expire_slots n.ttl_ms now_ms n.slots in
    (record n { slots = slots; count = n.count - dropped }, dropped)
