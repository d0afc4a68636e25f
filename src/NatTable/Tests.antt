-- ===== src/NatTable/Tests.antt =====
-- The table evaluated, and the lemmas on its flows applied.
use proxi_might.Prelude.{◌+◌, ◌≡◌, ◌↔◌, refl, some, [], ◌∷◌, arith, List}
use proxi_might.Prelude.Decimal.{pos, negsuc}
use proxi_might.Status.{ok, err_state}
use proxi_might.NatTable.{
  choose, find_slot, expired, Table, Slot, create, fresh_slot, zero_slot, add, find, mark_closed,
  expire_slots,
}
use proxi_might.NatTable.Slots.{lookup}
use proxi_might.NatTable.Choosing.{AllLive}
use proxi_might.NatTable.Flows.{
  IsLive, lookup-add, add-keeps_live, add_full_iff, find-live, find-mark_closed,
}
use proxi_might.NatTable.Survival.{
  Op, add_op, find_op, close_op, remove_op, expire_op, run, HasFlow, last_lookup, run-HasFlow,
}
use proxi_might.NatTable.Valid.{IsValid, used_count, run-create-IsValid, used_count-expire_slots}

-- Two slots, one of them for port 5000, last seen at 100; flows expire after 1000 ms.
abbrev ssh : Slot
ssh = fresh_slot 1 5000 7 22 100

abbrev small : Table
small = record { slots = ssh ∷ zero_slot ∷ []; count = 1; ttl_ms = 1000 }

abbrev busy : Table
busy = record { slots = ssh ∷ fresh_slot 1 5001 8 443 200 ∷ []; count = 2; ttl_ms = 1000 }

added : (add small 1 5001 8 443 200) ≡ (busy, ok)
unfolding add find_slot choose
added = refl

refused : (add busy 1 5002 9 80 300).1 ≡ err_state
unfolding add find_slot choose expired
refused = refl

reclaims_closed : (add (mark_closed busy 5001) 1 5002 9 80 300).1 ≡ ok
unfolding add find_slot choose expired mark_closed
reclaims_closed = refl

default_size : (create 0 (negsuc 0)).ttl_ms ≡ 120000
unfolding create
default_size = refl

ssh-IsLive : IsLive small 5000 300 ssh
unfolding lookup expired
ssh-IsLive = record { present = refl; fresh = refl; open_flow = refl }

lookup-add_example :
    lookup (add small 1 5001 8 443 200).0.slots 5001 ≡ some (fresh_slot 1 5001 8 443 200)
unfolding add find_slot choose
lookup-add_example = lookup-add small 1 5001 8 443 200 (omega arith) refl

add-keeps_live_example : lookup (add small 1 5001 8 443 300).0.slots 5000 ≡ some ssh
add-keeps_live_example =
    add-keeps_live small 1 5001 8 443 300 5000 ssh (omega arith) (omega arith) ssh-IsLive

add_full_iff_example :
    (add busy 1 5002 9 80 300 ≡ (busy, err_state)) ↔ AllLive busy.ttl_ms 300 busy.slots
unfolding lookup
add_full_iff_example = add_full_iff busy 1 5002 9 80 300 (omega arith) refl

find-live_example :
    ((find small 5000 300).1 ≡ some ssh.e)
    × (lookup (find small 5000 300).0.slots 5000 ≡ some (record ssh { last_seen_ms = 300 }))
find-live_example = find-live small 5000 300 ssh (omega arith) ssh-IsLive

find-mark_closed_example : (find (mark_closed small 5000) 5000 300).1 ≡ (find small 5000 300).1
find-mark_closed_example = find-mark_closed small 5000 300

-- Other flows come and go, and port 5000 is looked up at 900 and at 1800.
abbrev traffic : List Op
traffic =
    add_op 1 5001 8 443 200
    ∷ find_op 5000 900
    ∷ close_op 5001
    ∷ expire_op 1700
    ∷ find_op 5000 1800
    ∷ remove_op 5001
    ∷ add_op 1 5002 9 80 2700
    ∷ []

ssh_flow : HasFlow 5000 1000 100 ssh.e small
unfolding lookup
ssh_flow = record {
  slot = ssh;
  present = refl;
  open_flow = refl;
  last_seen = refl;
  entry = refl;
  idle_time = refl;
}

run-HasFlow_example : HasFlow 5000 1000 (last_lookup 5000 100 traffic) ssh.e (run small traffic)
run-HasFlow_example = run-HasFlow 5000 1000 ssh.e (omega arith) traffic ssh_flow (omega arith)

run-create-IsValid_example : IsValid (run (create 4 (pos 500)) traffic)
run-create-IsValid_example = run-create-IsValid 4 (pos 500) traffic

used_count-expire_slots_example :
    used_count (expire_slots 1000 1150 busy.slots).0 + (expire_slots 1000 1150 busy.slots).1
    ≡ used_count busy.slots
used_count-expire_slots_example = used_count-expire_slots 1000 1150 busy.slots
