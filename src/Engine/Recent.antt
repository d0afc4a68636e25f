-- ===== src/Engine/Recent.antt =====
-- src/core/pmx_engine.c: the ring of events and the log of all events.
use proxi_might.Prelude.{
  ℕ, zero, suc, ◌+◌, ◌-◌, ◌%◌, ◌<◌, ◌≤◌, ◌≡◌, ◌≢◌, refl, sym, ap, min, ◌∙◌, some, List, [], ◌∷◌,
  ltb, if◌then◌else◌, length, get_elem?, arith, inl, inr, Bool-cases,
}
use proxi_might.Engine.Ring.{
  Ring, ConnEvent, event_ring, put, push, copy_out, recent_events, clear_events,
}

-- The log has the newest event first; the ring has those that it counts.
abbrev pub IsNewest : List ConnEvent → (ℕ → ConnEvent) → ℕ → ℕ → Type 0
IsNewest log events head len =
    (k : ℕ) → k < len → get_elem? log k ≡ some (events ((head + (len - 1 - k)) % event_ring))

pub record Holds (log : List ConnEvent) (r : Ring) : Type 0 where
  pub in_range : r.event_head < event_ring
  pub counted : r.event_len ≡ min event_ring (length log)
  pub newest : IsNewest log r.events r.event_head r.event_len

put-same :
    (events : ℕ → ConnEvent) (i idx : ℕ) (ev : ConnEvent) → i ≡ idx → put events idx ev i ≡ ev
put-same events i idx ev h = ground arith

put-other :
    (events : ℕ → ConnEvent) (i idx : ℕ) (ev : ConnEvent) → i ≢ idx → put events idx ev i ≡ events i
put-other events i idx ev h = ground arith

room-IsNewest :
    (log : List ConnEvent) (ev : ConnEvent) (events : ℕ → ConnEvent) (head len : ℕ)
    → head < event_ring
    → len < event_ring
    → IsNewest log events head len
    → IsNewest (ev ∷ log) (put events ((head + len) % event_ring) ev) head (len + 1)
room-IsNewest log ev events head len hh hl v zero hk = ap some (
    sym (
      put-same events ((head + (len + 1 - 1 - 0)) % event_ring) ((head + len) % event_ring) ev
        (omega arith)))
room-IsNewest log ev events head len hh hl v (suc j) hk =
    let same : (head + (len - 1 - j)) % event_ring ≡ (head + (len + 1 - 1 - suc j)) % event_ring =
      omega arith in
    let apart : ((head + (len + 1 - 1 - suc j)) % event_ring) ≢ ((head + len) % event_ring) =
      λ e. omega arith in
    v j (omega arith)
    ∙ ap some (
        ap events same
        ∙ sym (
            put-other events ((head + (len + 1 - 1 - suc j)) % event_ring)
              ((head + len) % event_ring) ev apart))

full-IsNewest :
    (log : List ConnEvent) (ev : ConnEvent) (events : ℕ → ConnEvent) (head len : ℕ)
    → head < event_ring
    → len ≡ event_ring
    → IsNewest log events head len
    → IsNewest (ev ∷ log) (put events head ev) ((head + 1) % event_ring) len
full-IsNewest log ev events head len hh hl v zero hk = ap some (
    sym (
      put-same events (((head + 1) % event_ring + (len - 1 - 0)) % event_ring) head ev
        (omega arith)))
full-IsNewest log ev events head len hh hl v (suc j) hk =
    let at = ((head + 1) % event_ring + (len - 1 - suc j)) % event_ring in
    let same : (head + (len - 1 - j)) % event_ring ≡ at = omega arith in
    let apart : at ≢ head = λ e. omega arith in
    v j (omega arith) ∙ ap some (ap events same ∙ sym (put-other events at head ev apart))

push-Holds :
    (log : List ConnEvent) (ev : ConnEvent) (r : Ring) → Holds log r → Holds (ev ∷ log) (push r ev)
unfolding push
push-Holds log ev r v = elim (Bool-cases (ltb r.event_len event_ring)) [
  | inl h ↦
      let room : r.event_len < event_ring = ground arith in
      rw h (record {
        in_range = v.in_range;
        counted = omega (arith, v.counted);
        newest = room-IsNewest log ev r.events r.event_head r.event_len v.in_range room v.newest;
      })
  | inr h ↦
      let full : r.event_len ≡ event_ring = ground (arith, v.counted) in
      rw h (record {
        in_range = omega arith;
        counted = omega (arith, v.counted);
        newest = full-IsNewest log ev r.events r.event_head r.event_len v.in_range full v.newest;
      })
]

-- The ring after the events of a log, of which the newest stands first.
unfoldable pub recorded : Ring → List ConnEvent → Ring
unfolding push
recorded r [] = r
recorded r (ev ∷ log) = push (recorded r log) ev

clear-Holds : (r : Ring) → Holds [] (clear_events r)
unfolding clear_events
clear-Holds r = record {
  in_range = omega arith;
  counted = refl;
  newest = λ k h. absurd (omega arith);
}

recorded-Holds : (r : Ring) (log : List ConnEvent) → Holds log (recorded (clear_events r) log)
unfolding recorded
recorded-Holds r [] = clear-Holds r
recorded-Holds r (ev ∷ log) =
    push-Holds log ev (recorded (clear_events r) log) (recorded-Holds r log)

length-copy_out : (r : Ring) (start n : ℕ) → length (copy_out r start n) ≡ n
unfolding copy_out
length-copy_out r start zero = refl
length-copy_out r start (suc n) = ap suc (length-copy_out r (start + 1) n)

get_elem?-copy_out :
    (r : Ring) (start n i : ℕ)
    → i < n
    → get_elem? (copy_out r start n) i ≡ some (r.events ((r.event_head + (start + i)) % event_ring))
unfolding copy_out
get_elem?-copy_out r start zero i h = absurd (omega arith)
get_elem?-copy_out r start (suc n) zero h =
    ap (λ k. some (r.events ((r.event_head + k) % event_ring))) (omega arith)
get_elem?-copy_out r start (suc n) (suc i) h =
    get_elem?-copy_out r (start + 1) n i (omega arith)
    ∙ ap (λ k. some (r.events ((r.event_head + k) % event_ring))) (omega arith)

-- After any events on a cleared ring, the events shown are as many as were asked for, at most 512
-- and at most all, and they are the newest ones in the order in which they came.
pub recent_events-recorded :
    (r : Ring) (log : List ConnEvent) (max : ℕ)
    → let shown = recent_events (recorded (clear_events r) log) max in
      (length shown ≡ min max (min event_ring (length log)))
      × ((i : ℕ) → i < length shown → get_elem? shown i ≡ get_elem? log (length shown - 1 - i))
unfolding recent_events
recent_events-recorded r log max =
    let r' = recorded (clear_events r) log in
    let v = recorded-Holds r log in
    let n = if ltb r'.event_len max then r'.event_len else max in
    let len = length-copy_out r' (r'.event_len - n) n in
    let size : n ≡ min max (min event_ring (length log)) = ground (arith, v.counted) in
    let within : n ≤ r'.event_len = ground arith in
    (
      len ∙ size,
      λ i hi.
          let k = length (copy_out r' (r'.event_len - n) n) - 1 - i in
          let at : (r'.event_head + (r'.event_len - n + i)) % event_ring
              ≡ (r'.event_head + (r'.event_len - 1 - k)) % event_ring =
            omega (arith, len, within) in
          get_elem?-copy_out r' (r'.event_len - n) n i (omega (arith, len))
          ∙ ap (λ a. some (r'.events a)) at
          ∙ sym (v.newest k (omega (arith, len, within))),
    )
