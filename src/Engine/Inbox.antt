-- ===== src/Engine/Inbox.antt =====
-- src/core/pmx_engine.c: the inbox of flows between the backend's thread and the pump. The backend
-- takes the mutex twice for a flow, so that the pump may come in between; each of the two sections
-- is one step here.
use proxi_might.Prelude.{
  ℕ, ◌+◌, ◌-◌, ◌≤◌, ◌≡◌, refl, sym, ap, ◌∙◌, Option, none, some, List, [], ◌∷◌, ◌++◌, leb,
  if◌then◌else◌, length, arith, inl, inr, Bool-cases, append_assoc, append-nil, length-append,
}
use proxi_might.Engine.Ring.{Flow}

abbrev pub inbox_max : ℕ
inbox_max = 4096

-- `admitted` is the flow that the backend's thread holds between its two sections.
pub record Inbox : Type 0 where
  pub flows : List Flow
  pub inbox_len : ℕ
  pub inbox_dropped : ℕ
  pub admitted : Option Flow

-- engine_on_flow, up to where it gives the mutex back
unfoldable pub admit : Inbox → Flow → Inbox
admit i f =
    if leb inbox_max i.inbox_len
    then record i { inbox_dropped = i.inbox_dropped + 1 }
    else record i { admitted = some f }

-- engine_on_flow, the flow linked in at the tail
abbrev pub link_flow : Option Flow → Inbox → Inbox
link_flow none i = i
link_flow (some f) i = record i {
  flows = i.flows ++ f ∷ [];
  inbox_len = i.inbox_len + 1;
  admitted = none;
}

-- inbox_pop
abbrev pub pop_flow : List Flow → Inbox → Inbox × Option Flow
pop_flow [] i = (i, none)
pop_flow (f ∷ fs) i = (record i { flows = fs; inbox_len = i.inbox_len - 1 }, some f)

unfoldable pub inbox_pop : Inbox → Inbox × Option Flow
inbox_pop i = pop_flow i.flows i

-- The steps of the backend's thread and of the pump.
pub data InboxOp : Type 0 where
  arrives : Flow → InboxOp
  links pops : InboxOp

-- The inbox with the flows accepted and the flows popped so far.
pub record Trace : Type 0 where
  pub inbox : Inbox
  pub accepted : List Flow
  pub popped : List Flow

abbrev pub as_list : Option Flow → List Flow
as_list none = []
as_list (some f) = f ∷ []

-- A flow arrives only when the thread has finished with the one before.
abbrev pub arrive : Option Flow → Trace → Flow → Trace
arrive (some g) t f = t
arrive none t f = record t {
  inbox = admit t.inbox f;
  accepted = if leb inbox_max t.inbox.inbox_len then t.accepted else t.accepted ++ f ∷ [];
}

unfoldable pub inbox_step : Trace → InboxOp → Trace
unfolding admit inbox_pop
inbox_step t (arrives f) = arrive t.inbox.admitted t f
inbox_step t links = record t { inbox = link_flow t.inbox.admitted t.inbox }
inbox_step t pops = record t {
  inbox = (inbox_pop t.inbox).0;
  popped = t.popped ++ as_list (inbox_pop t.inbox).1;
}

unfoldable pub inbox_run : Trace → List InboxOp → Trace
unfolding inbox_step
inbox_run t [] = t
inbox_run t (o ∷ os) = inbox_run (inbox_step t o) os

abbrev pub empty_trace : Trace
empty_trace = record {
  inbox = record { flows = []; inbox_len = 0; inbox_dropped = 0; admitted = none };
  accepted = [];
  popped = [];
}

-- The counter is right and bounded, and the flows come out in the order in which they were accepted.
pub record IsInOrder (t : Trace) : Type 0 where
  pub counted : t.inbox.inbox_len ≡ length t.inbox.flows
  pub bounded : length t.inbox.flows + length (as_list t.inbox.admitted) ≤ inbox_max
  pub in_order : t.accepted ≡ t.popped ++ (t.inbox.flows ++ as_list t.inbox.admitted)

abbrev trace_of : List Flow → ℕ → ℕ → Option Flow → List Flow → List Flow → Trace
trace_of fs n d o accepted popped = record {
  inbox = record { flows = fs; inbox_len = n; inbox_dropped = d; admitted = o };
  accepted = accepted;
  popped = popped;
}

arrive-IsInOrder :
    (fs : List Flow) (n d : ℕ) (o : Option Flow) (accepted popped : List Flow) (f : Flow)
    → IsInOrder (trace_of fs n d o accepted popped)
    → IsInOrder (arrive o (trace_of fs n d o accepted popped) f)
unfolding admit
arrive-IsInOrder fs n d (some g) accepted popped f v = v
arrive-IsInOrder fs n d none accepted popped f v = elim (Bool-cases (leb inbox_max n)) [
  | inl full ↦ rw full (record { counted = v.counted; bounded = v.bounded; in_order = v.in_order })
  | inr room ↦ rw room (record {
    counted = v.counted;
    bounded = ground (arith, v.counted);
    in_order =
        ap (λ xs. xs ++ f ∷ []) v.in_order
        ∙ append_assoc popped (fs ++ []) (f ∷ [])
        ∙ ap (λ xs. popped ++ (xs ++ f ∷ [])) (append-nil fs);
  })
]

link-IsInOrder :
    (fs : List Flow) (n d : ℕ) (o : Option Flow) (accepted popped : List Flow)
    → IsInOrder (trace_of fs n d o accepted popped)
    → IsInOrder (record (trace_of fs n d o accepted popped) {
      inbox = link_flow o (trace_of fs n d o accepted popped).inbox;
    })
link-IsInOrder fs n d none accepted popped v = v
link-IsInOrder fs n d (some f) accepted popped v = record {
  counted = omega (arith, v.counted, length-append fs (f ∷ []));
  bounded = omega (arith, v.bounded, length-append fs (f ∷ []));
  in_order = v.in_order ∙ ap (λ xs. popped ++ xs) (sym (append-nil (fs ++ f ∷ [])));
}

pop-IsInOrder :
    (fs : List Flow) (n d : ℕ) (o : Option Flow) (accepted popped : List Flow)
    → IsInOrder (trace_of fs n d o accepted popped)
    → IsInOrder (inbox_step (trace_of fs n d o accepted popped) pops)
unfolding inbox_step inbox_pop
pop-IsInOrder [] n d o accepted popped v = record {
  counted = v.counted;
  bounded = v.bounded;
  in_order = v.in_order ∙ ap (λ xs. xs ++ as_list o) (sym (append-nil popped));
}
pop-IsInOrder (f ∷ fs) n d o accepted popped v = record {
  counted = omega (arith, v.counted);
  bounded = omega (arith, v.bounded);
  in_order = v.in_order ∙ sym (append_assoc popped (f ∷ []) (fs ++ as_list o));
}

inbox_step-IsInOrder : (t : Trace) (o : InboxOp) → IsInOrder t → IsInOrder (inbox_step t o)
unfolding inbox_step
inbox_step-IsInOrder t (arrives f) v =
    arrive-IsInOrder t.inbox.flows t.inbox.inbox_len t.inbox.inbox_dropped t.inbox.admitted
      t.accepted t.popped f v
inbox_step-IsInOrder t links v =
    link-IsInOrder t.inbox.flows t.inbox.inbox_len t.inbox.inbox_dropped t.inbox.admitted t.accepted
      t.popped v
inbox_step-IsInOrder t pops v =
    pop-IsInOrder t.inbox.flows t.inbox.inbox_len t.inbox.inbox_dropped t.inbox.admitted t.accepted
      t.popped v

inbox_run-IsInOrder' : (t : Trace) (os : List InboxOp) → IsInOrder t → IsInOrder (inbox_run t os)
unfolding inbox_run
inbox_run-IsInOrder' t [] v = v
inbox_run-IsInOrder' t (o ∷ os) v =
    inbox_run-IsInOrder' (inbox_step t o) os (inbox_step-IsInOrder t o v)

-- With one thread that delivers flows, and with the pump at any point between its steps, the
-- inbox never holds more than 4096 flows, its counter is their number, and the flows come out in
-- the order in which they were accepted.
pub inbox_run-IsInOrder : (os : List InboxOp) → IsInOrder (inbox_run empty_trace os)
inbox_run-IsInOrder os =
    inbox_run-IsInOrder' empty_trace os
      (record { counted = refl; bounded = omega arith; in_order = refl })
