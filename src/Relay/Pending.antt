-- ===== src/Relay/Pending.antt =====
-- src/core/pmx_relay.c: a destination registered for a port, and the connection that comes from it.
use mathlib.Core.Path.{subst}
use proxi_might.Prelude.{
  on_branches, take, ℕ, ◌<◌, ◌≡◌, ◌≢◌, refl, true, false, ◌||◌, Option, none, some, List, [], ◌∷◌,
  ◌++◌, ltb, leb, ◌==◌, length, inl, inr, arith, Bool-cases,
}
use proxi_might.Prelude.Bytes.{Bytes, strlcpy}
use proxi_might.Status.{Status, ok, err_state, err_invalid_arg}
use proxi_might.Proxy.{Proxy}
use proxi_might.Relay.{
  RelayEntry, behind, Relay, since, fresh, max_pending, unexpired, replaced, with_entry, register,
  taken, relay_take,
}

-- The list gives the entry for its port, at the time `now`.
HasEntry : ℕ → RelayEntry → List RelayEntry → Type 0
unfolding taken unexpired
HasEntry now new es =
    (rest : List RelayEntry) × (taken new.src_port (unexpired now es) ≡ some (new, rest))

HasEntry-other :
    (now : ℕ) (new e : RelayEntry) (es : List RelayEntry)
    → (e.src_port == new.src_port) ≡ false
    → HasEntry now new es
    → HasEntry now new (e ∷ es)
unfolding HasEntry taken unexpired
HasEntry-other now new e es h (rest, k) = elim (Bool-cases (fresh now e)) [
  | inl f ↦ (e ∷ rest, rw (f, h, k) refl)
  | inr f ↦ (rest, rw f k)
]

HasEntry-here :
    (now : ℕ) (new : RelayEntry) (es : List RelayEntry)
    → fresh now new ≡ true
    → HasEntry now new (new ∷ es)
unfolding HasEntry taken unexpired
HasEntry-here now new es f =
    let same : (new.src_port == new.src_port) ≡ true = ground arith in
    (unexpired now es, rw (f, same) refl)

err_state_ne : err_state ≢ ok
err_state_ne e = cc

err_invalid_arg_ne : err_invalid_arg ≢ ok
err_invalid_arg_ne e = cc

-- The entry is in its slot, or in a new one behind the others.
IsPlaced : ℕ → RelayEntry → List RelayEntry → Option (List RelayEntry) → Type 0
unfolding HasEntry
IsPlaced now new es none = HasEntry now new (es ++ new ∷ [])
IsPlaced now new es (some es') = HasEntry now new es'

behind-IsPlaced :
    (now : ℕ) (new e : RelayEntry) (es : List RelayEntry) (o : Option (List RelayEntry))
    → (e.src_port == new.src_port) ≡ false
    → IsPlaced now new es o
    → IsPlaced now new (e ∷ es) (behind e o)
unfolding IsPlaced
behind-IsPlaced now new e es none h k = HasEntry-other now new e (es ++ new ∷ []) h k
behind-IsPlaced now new e es (some es') h k = HasEntry-other now new e es' h k

replaced-IsPlaced :
    (now : ℕ) (new : RelayEntry) (es : List RelayEntry)
    → fresh now new ≡ true
    → IsPlaced now new es (replaced new es)
unfolding replaced IsPlaced
replaced-IsPlaced now new [] f = HasEntry-here now new [] f
replaced-IsPlaced now new (e ∷ es) f =
    on_branches (IsPlaced now new (e ∷ es)) (e.src_port == new.src_port) _ _
      (λ _. HasEntry-here now new es f)
      (λ h. behind-IsPlaced now new e es (replaced new es) h (replaced-IsPlaced now new es f))

-- Where the entry was put, a success keeps it.
Keeps : ℕ → RelayEntry → Relay × Status → Type 0
unfolding HasEntry
Keeps now new (r, s) = s ≡ ok → HasEntry now new r.pending

with_entry-Keeps :
    (now : ℕ) (r : Relay) (es : List RelayEntry) (new : RelayEntry) (o : Option (List RelayEntry))
    → IsPlaced now new es o
    → Keeps now new (with_entry r es new o)
unfolding IsPlaced Keeps
with_entry-Keeps now r es new (some es') h = λ e. h
with_entry-Keeps now r es new none h =
    on_branches (Keeps now new) (leb max_pending (length es)) _ _ (λ _ e. absurd (err_state_ne e))
      (λ _ e. h)

abbrev pub entry_of : ℕ → Bytes → ℕ → List Proxy → ℕ → RelayEntry
entry_of src_port dst_host dst_port chain added_ms = record {
  src_port = src_port;
  dst_host = take 255 dst_host;
  dst_port = dst_port;
  chain = chain;
  added_ms = added_ms;
}

register-Keeps :
    (r : Relay) (src_port : ℕ) (dst_host : Bytes) (dst_port : ℕ) (chain : List Proxy)
    (now later after : ℕ)
    → fresh after (entry_of src_port dst_host dst_port chain later) ≡ true
    → Keeps after
        (entry_of src_port dst_host dst_port chain later)
        (register r src_port dst_host dst_port chain now later)
unfolding register strlcpy Keeps
register-Keeps r src_port dst_host dst_port chain now later after f =
    let new = entry_of src_port dst_host dst_port chain later in
    on_branches (Keeps after new) (src_port == 0 || length chain == 0 || ltb 8 (length chain)) _ _
      (λ _ e. absurd (err_invalid_arg_ne e))
      (λ _.
        with_entry-Keeps after r (unexpired now r.pending) new
          (replaced new (unexpired now r.pending))
          (replaced-IsPlaced after new (unexpired now r.pending) f))

-- After a successful registration, the connection that comes from the port less than 30 seconds
-- later is given exactly the destination, the chain and the time that were registered, with the
-- host cut to its buffer, whatever else the table holds.
pub register-relay_take :
    (r r' : Relay) (src_port : ℕ) (dst_host : Bytes) (dst_port : ℕ) (chain : List Proxy)
    (now later after : ℕ)
    → register r src_port dst_host dst_port chain now later ≡ (r', ok)
    → since after later < 30000
    → (relay_take r' src_port after).1 ≡ some (entry_of src_port dst_host dst_port chain later)
unfolding relay_take HasEntry Keeps
register-relay_take r r' src_port dst_host dst_port chain now later after e h =
    let new = entry_of src_port dst_host dst_port chain later in
    let f : fresh after new ≡ true = ground arith in
    let (rest, k) =
      subst (Keeps after new) e
        (register-Keeps r src_port dst_host dst_port chain now later after f) refl in
    rw k refl
