-- ===== src/Profile/Sealed.antt =====
-- src/core/pmx_profile.c: what pmx_profile_save writes to the file and what pmx_profile_load gives to
-- the JSON parser, around the text that pmx_profile_to_json made. The crypto provider behind
-- include/proximight/pmx_protect.h and the outcome of write_file_atomic are arguments.
use proxi_might.Prelude.{
  ℕ, ◌+◌, ◌*◌, ◌/◌, ◌%◌, ◌^◌, ◌-◌, ◌≡◌, refl, Bool, true, false, ◌&&◌, ◌||◌, not, ◌⊎◌, inl, inr,
  Option, none, some, List, [], ◌∷◌, ◌++◌, ◌==◌, ltb, leb, if◌then◌else◌, length, take, drop,
  take_all, zero, suc, arith, ◌<◌, ◌≤◌,
}
use proxi_might.Prelude.Bytes.{Bytes, codes, byte_eq}
use proxi_might.Status.{Status, ok, err_io, err_parse, err_unsupported, err_crypto}
use proxi_might.Vpn.Text.{up_to}
pub mod Saved

pub record Protect : Type 0 where
  pub available : Bool
  pub seal : Bytes → Bytes ⊎ Status
  pub unseal : Bytes → Bytes ⊎ Status

abbrev pub seal_magic : Bytes
seal_magic = codes "PMXSEAL" ++ 0 ∷ []

abbrev pub seal_header : ℕ
seal_header = 16

abbrev pub seal_version : ℕ
seal_version = 1

abbrev pub put_u32le : ℕ → Bytes
put_u32le v = v % 256 ∷ (v / 2 ^ 8) % 256 ∷ (v / 2 ^ 16) % 256 ∷ (v / 2 ^ 24) % 256 ∷ []

-- The bytes at the front; the callers have at least four there.
abbrev pub get_u32le : Bytes → ℕ
get_u32le (a ∷ b ∷ c ∷ d ∷ _) = a + b * 2 ^ 8 + c * 2 ^ 16 + d * 2 ^ 24
get_u32le _ = 0

unfoldable pub looks_sealed : Bytes → Bool
unfolding byte_eq
looks_sealed buf = leb seal_header (length buf) && byte_eq (take 8 buf) seal_magic

abbrev pub container_of : Bytes → Bytes
container_of sealed =
    seal_magic ++ put_u32le seal_version ++ put_u32le (length sealed % 2 ^ 32) ++ sealed

-- Nothing is written when the blob is longer than the header can say.
abbrev pub write_fitting : (Bytes → Status) → Bool → Bytes → Status × Option Bytes
write_fitting write true contents = (err_io, none)
write_fitting write false contents = (write contents, some contents)

-- What the provider returned, put into the file.
abbrev pub write_sealed : (Bytes → Status) → Bytes ⊎ Status → Status × Option Bytes
write_sealed write (inr st) = (st, none)
write_sealed write (inl sealed) =
    write_fitting write (ltb (2 ^ 32 - 1) (length sealed)) (container_of sealed)

-- pmx_profile_save from the JSON text on: its status, and the bytes that it writes if it gets there.
unfoldable pub save_text : Protect → (Bytes → Status) → Bytes → Status × Option Bytes
save_text p write json =
    if p.available then write_sealed write (p.seal json) else (write json, some json)

-- The opened payload as a C string; any failure of the provider is a crypto error.
abbrev pub opened : Bytes ⊎ Status → Bytes ⊎ Status
opened (inl plain) = inl (up_to 0 plain)
opened (inr _) = inr err_crypto

-- The tests on a sealed file: its version, the length that it states, the bytes behind the header,
-- and these bytes.
abbrev pub open_payload : Protect → ℕ → ℕ → ℕ → Bytes → Bytes ⊎ Status
open_payload p ver plen room payload =
    if not (ver == seal_version) || ltb room plen
    then inr err_parse
    else if not p.available
    then inr err_unsupported
    else opened (p.unseal (take plen payload))

abbrev pub open_container : Protect → Bytes → Bytes ⊎ Status
open_container p buf =
    open_payload p (get_u32le (drop 8 buf)) (get_u32le (drop 12 buf)) (length buf - seal_header)
      (drop seal_header buf)

-- pmx_profile_load up to pmx_profile_from_json: the text that is parsed, or the failure.
unfoldable pub stored_text : Protect → Bytes → Bytes ⊎ Status
unfolding looks_sealed
stored_text p buf = if looks_sealed buf then open_container p buf else inl (up_to 0 buf)
