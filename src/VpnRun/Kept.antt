-- ===== src/VpnRun/Kept.antt =====
-- src/core/pmx_vpn_run.c: what bringing one tunnel up leaves of the others.
use proxi_might.Prelude.{
  ℕ, ◌≡◌, ◌≢◌, refl, sym, ap, ◌∙◌, Bool, true, false, not, Option, none, some, [], ◌∷◌, ◌==◌,
  get_elem?, get_elem?-set_ne, on_branches, false_ne_true,
}
use proxi_might.Prelude.Bytes.{Bytes}
use proxi_might.Status.{Status, is_ok}
use proxi_might.Vpn.{Vpn}
use proxi_might.Vpn.Load.{Client, vpn_validate}
use proxi_might.VpnRun.{
  VpnEntry, Runner, Host, first_index, next_place, tracks, is_free, is_finished, claimed, slot_for,
  with_slot, up_found, entry_for, up_at, vpn_up,
}

-- The entry that was found passes the test.
IsFound : (VpnEntry → Bool) → Runner → Option ℕ → Type 0
IsFound test r none = Unit
IsFound test r (some i) = (e : VpnEntry) × (get_elem? r i ≡ some e) × (test e ≡ true)

next_place-IsFound :
    (test : VpnEntry → Bool) (e : VpnEntry) (es : Runner) (o : Option ℕ)
    → IsFound test es o
    → IsFound test (e ∷ es) (next_place o)
unfolding IsFound
next_place-IsFound test e es none h = tt
next_place-IsFound test e es (some i) h = h

first_index-IsFound : (test : VpnEntry → Bool) (r : Runner) → IsFound test r (first_index test r)
unfolding first_index IsFound
first_index-IsFound test [] = tt
first_index-IsFound test (e ∷ es) =
    on_branches (IsFound test (e ∷ es)) (test e) _ _ (λ h. (e, refl, h))
      (λ _. next_place-IsFound test e es (first_index test es) (first_index-IsFound test es))

test_of : (VpnEntry → Bool) → Option VpnEntry → Bool
test_of test none = false
test_of test (some e) = test e

-- A place other than `i`, where the entry `e` stands, which fails the test.
IsElsewhere : ℕ → Option ℕ → Type 0
IsElsewhere i none = Unit
IsElsewhere i (some j) = j ≢ i

found-IsElsewhere :
    (test : VpnEntry → Bool) (r : Runner) (i : ℕ) (e : VpnEntry) (o : Option ℕ)
    → get_elem? r i ≡ some e
    → test e ≡ false
    → IsFound test r o
    → IsElsewhere i o
unfolding IsFound IsElsewhere test_of
found-IsElsewhere test r i e none h t f = tt
found-IsElsewhere test r i e (some j) h t (e', f, t') =
    λ same. false_ne_true (sym t ∙ ap (test_of test) (sym h ∙ ap (get_elem? r) (sym same) ∙ f) ∙ t')

-- The entry is untouched, and the slot that was found is another.
Spares : ℕ → VpnEntry → Option (Runner × ℕ) → Type 0
Spares i e none = Unit
Spares i e (some (r, j)) = (get_elem? r i ≡ some e) × (j ≢ i)

with_slot-Spares :
    (r : Runner) (id i : ℕ) (e : VpnEntry) (own free ended : Option ℕ)
    → get_elem? r i ≡ some e
    → IsElsewhere i own
    → IsElsewhere i free
    → IsElsewhere i ended
    → Spares i e (with_slot r id (slot_for own free ended))
unfolding Spares IsElsewhere
with_slot-Spares r id i e (some j) free ended h n1 n2 n3 = (h, n1)
with_slot-Spares r id i e none (some j) ended h n1 n2 n3 =
    (get_elem?-set_ne r (claimed id) n2 ∙ h, n2)
with_slot-Spares r id i e none none (some j) h n1 n2 n3 =
    (get_elem?-set_ne r (claimed id) n3 ∙ h, n3)
with_slot-Spares r id i e none none none h n1 n2 n3 = tt

up_found-others :
    (r : Runner) (j : ℕ) (v : Vpn) (exe : Bytes) (host : Host) (i : ℕ) (e : VpnEntry)
    (o : Option VpnEntry)
    → get_elem? r i ≡ some e
    → j ≢ i
    → get_elem? (up_found r j v exe host o).0 i ≡ some e
up_found-others r j v exe host i e none h n = h
up_found-others r j v exe host i e (some e') h n = get_elem?-set_ne r _ n ∙ h

up_at-Spares :
    (r : Runner) (v : Vpn) (exe : Bytes) (host : Host) (i : ℕ) (e : VpnEntry)
    (o : Option (Runner × ℕ))
    → get_elem? r i ≡ some e
    → Spares i e o
    → get_elem? (up_at r v exe host o).0 i ≡ some e
unfolding Spares
up_at-Spares r v exe host i e none h s = h
up_at-Spares r v exe host i e (some (r', j)) h (k, n) =
    up_found-others r' j v exe host i e (get_elem? r' j) k n

-- Bringing a tunnel up leaves the entry of another tunnel as it was, in its place, unless that
-- entry is finished, which is down or failed without a child; this holds for every outcome of the
-- commands.
pub vpn_up-others :
    (r : Runner) (v : Vpn) (client : Client) (host : Host) (i : ℕ) (e : VpnEntry)
    → get_elem? r i ≡ some e
    → e.used ≡ true
    → is_finished e ≡ false
    → (e.id == v.id) ≡ false
    → get_elem? (vpn_up r v client host).0 i ≡ some e
unfolding vpn_up entry_for
vpn_up-others r v client host i e h u f n =
    let P : Runner × Status → Type 0 = λ x. get_elem? x.0 i ≡ some e in
    on_branches P (not client.found) _ _ (λ _. h)
      (λ _.
        on_branches P (not (is_ok (vpn_validate v [] 128).0)) _ _ (λ _. h)
          (λ _. up_at-Spares r v client.path host i e (entry_for r v.id) h (
            with_slot-Spares r v.id i e (first_index (tracks v.id) r) (first_index is_free r)
              (first_index is_finished r) h
              (found-IsElsewhere (tracks v.id) r i e _ h (rw (u, n) refl)
                (first_index-IsFound (tracks v.id) r))
              (found-IsElsewhere is_free r i e _ h (rw u refl) (first_index-IsFound is_free r))
              (found-IsElsewhere is_finished r i e _ h f (first_index-IsFound is_finished r)))))
