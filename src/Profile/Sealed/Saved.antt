-- ===== src/Profile/Sealed/Saved.antt =====
-- src/core/pmx_profile.c: a profile file that is loaded gives the text that was saved.
use mathlib.Core.Path.{subst}
use proxi_might.Prelude.{
  ◌∙◌, ℕ, ◌%◌, ◌^◌, ◌-◌, ◌≡◌, refl, Bool, true, false, ◌⊎◌, inl, inr, some, ◌∷◌, ◌++◌, length,
  take_all, arith, ◌<◌, ltb, Bool-cases,
}
use proxi_might.Prelude.Bytes.{Bytes, byte_eq}
use proxi_might.Status.{Status}
use proxi_might.Vpn.Text.{up_to}
use proxi_might.Profile.Sealed.{
  Protect, put_u32le, get_u32le, container_of, looks_sealed, save_text, stored_text, opened,
  open_container, open_payload, write_sealed, write_fitting,
}

pub get_u32le-put_u32le : (v : ℕ) (rest : Bytes) → v < 2 ^ 32 → get_u32le (put_u32le v ++ rest) ≡ v
get_u32le-put_u32le v rest h = omega arith

container_looks_sealed : (sealed : Bytes) → looks_sealed (container_of sealed) ≡ true
unfolding looks_sealed byte_eq
container_looks_sealed sealed = ground arith

payload_opens :
    (p : Protect) (sealed : Bytes) (plen room : ℕ)
    → p.available ≡ true
    → plen ≡ length sealed
    → room ≡ length sealed
    → open_payload p 1 plen room sealed ≡ opened (p.unseal sealed)
payload_opens p sealed plen room av e e' =
    rw (e, e', av, take_all (length sealed) sealed (omega arith)) (ground arith)

container_opens :
    (p : Protect) (sealed : Bytes)
    → p.available ≡ true
    → length sealed < 2 ^ 32
    → open_container p (container_of sealed) ≡ opened (p.unseal sealed)
container_opens p sealed av h =
    payload_opens p sealed (get_u32le (put_u32le (length sealed % 2 ^ 32) ++ sealed))
      (length (container_of sealed) - 16) av
      (get_u32le-put_u32le (length sealed % 2 ^ 32) sealed (omega arith) ∙ omega arith)
      (omega arith)

not_sealed : (rest : Bytes) → looks_sealed (123 ∷ rest) ≡ false
unfolding looks_sealed byte_eq
not_sealed rest = ground arith

container_loads :
    (p : Protect) (sealed json : Bytes)
    → p.available ≡ true
    → length sealed < 2 ^ 32
    → up_to 0 json ≡ json
    → p.unseal sealed ≡ inl json
    → stored_text p (container_of sealed) ≡ inl json
unfolding stored_text
container_loads p sealed json av h t e =
    rw (container_looks_sealed sealed, container_opens p sealed av h, e, t) refl

fits_if_written :
    (write : Bytes → Status) (big : Bool) (contents buf : Bytes)
    → (write_fitting write big contents).1 ≡ some buf
    → (big ≡ false) × (contents ≡ buf)
fits_if_written write true contents buf w = absurd cc
fits_if_written write false contents buf w = (refl, cc)

sealed_loads :
    (p : Protect) (write : Bytes → Status) (json buf : Bytes) (blob : Bytes ⊎ Status)
    → p.available ≡ true
    → up_to 0 json ≡ json
    → ((sealed : Bytes) → blob ≡ inl sealed → p.unseal sealed ≡ inl json)
    → (write_sealed write blob).1 ≡ some buf
    → stored_text p buf ≡ inl json
sealed_loads p write json buf (inr st) av t opens w = absurd cc
sealed_loads p write json buf (inl sealed) av t opens w =
    let big = ltb (2 ^ 32 - 1) (length sealed) in
    let fits = fits_if_written write big (container_of sealed) buf w in
    let small : big ≡ false = fits.0 in
    subst (λ b. stored_text p b ≡ inl json) fits.1
      (container_loads p sealed json av (ground arith) t (opens sealed refl))

plain_loads :
    (p : Protect) (rest : Bytes)
    → up_to 0 (123 ∷ rest) ≡ 123 ∷ rest
    → stored_text p (123 ∷ rest) ≡ inl (123 ∷ rest)
unfolding stored_text
plain_loads p rest t = rw (not_sealed rest, t) refl

-- For a JSON text that starts with a brace and holds no NUL, and a provider that opens to the
-- text what it sealed from it, the bytes that a save hands to be written, sealed or plain, are
-- loaded as the same text.
pub stored_text-save_text :
    (p : Protect) (write : Bytes → Status) (rest buf : Bytes)
    → up_to 0 (123 ∷ rest) ≡ 123 ∷ rest
    → ((text sealed : Bytes) → p.seal text ≡ inl sealed → p.unseal sealed ≡ inl text)
    → (save_text p write (123 ∷ rest)).1 ≡ some buf
    → stored_text p buf ≡ inl (123 ∷ rest)
unfolding save_text
stored_text-save_text p write rest buf t opens w = elim (Bool-cases p.available) [
  | inl av ↦
      sealed_loads p write (123 ∷ rest) buf (p.seal (123 ∷ rest)) av t (opens (123 ∷ rest))
        (rw av at w)
  | inr none_here ↦
      let e : some (123 ∷ rest) ≡ some buf = rw none_here at w in
      let same : 123 ∷ rest ≡ buf = cc in
      subst (λ b. stored_text p b ≡ inl (123 ∷ rest)) same (plain_loads p rest t)
]
