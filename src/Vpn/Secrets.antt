-- ===== src/Vpn/Secrets.antt =====
-- src/core/pmx_vpn.c: the secrets of a WireGuard file.
use proxi_might.Prelude.{
  false_ne_true, ℕ, ◌≡◌, ◌≢◌, refl, ap, ◌∙◌, sym, Bool, true, false, ◌||◌, Option, none, some, List,
  [], ◌∷◌, ◌++◌, ◌==◌, arith, ◌⊎◌, inl, inr, Bool-cases,
}
use proxi_might.Prelude.Bytes.{Bytes, codes, tolower, isspace}
use proxi_might.Rule.Patterns.{trim_front, trim_back}
use proxi_might.Vpn.{Vpn, init, wireguard}
use proxi_might.Vpn.Text.{before_byte, raw_lines, skip_bom, split_first, trim, ci_eq}
use proxi_might.Vpn.WireGuard.{
  some_endpoint, parse_wireguard, trim_both, Section, sec_none, sec_iface, sec_peer, iface_entry,
  peer_entry, wg_entry, wg_clean, wg_line, wg_lines, clean_line, key_value,
}

ci_eq-cong : (k s t : Bytes) → ci_eq k s ≡ true → ci_eq k t ≡ ci_eq s t
unfolding ci_eq
ci_eq-cong [] [] t h = refl
ci_eq-cong [] (b ∷ s) t h = cc
ci_eq-cong (a ∷ k) [] t h = cc
ci_eq-cong (a ∷ k) (b ∷ s) [] h = refl
ci_eq-cong (a ∷ k) (b ∷ s) (c ∷ t) h = ground (arith, ci_eq-cong k s t)

-- The two keys that stand before a secret, in any mixture of cases.
abbrev pub names_secret : Bytes → Bool
names_secret key = ci_eq key (codes "PrivateKey") || ci_eq key (codes "PresharedKey")

or_cases : (a b : Bool) → a || b ≡ true → (a ≡ true) ⊎ (b ≡ true)
or_cases true b h = inl refl
or_cases false b h = inr h

secret_cases :
    (key : Bytes)
    → names_secret key ≡ true
    → (ci_eq key (codes "PrivateKey") ≡ true) ⊎ (ci_eq key (codes "PresharedKey") ≡ true)
secret_cases key h = or_cases _ _ h

other_key : (key k x : Bytes) → ci_eq key k ≡ true → ci_eq k x ≡ false → ci_eq key x ≡ false
other_key key k x h e = ci_eq-cong key k x h ∙ e

iface_entry-secret :
    (v : Vpn) (key a b : Bytes)
    → names_secret key ≡ true
    → iface_entry v key a ≡ iface_entry v key b
unfolding iface_entry ci_eq tolower
iface_entry-secret v key a b h = elim (secret_cases key h) [
  | inl e ↦ rw e refl
  | inr e ↦
      rw
        (
          other_key key (codes "PresharedKey") (codes "PrivateKey") e refl,
          other_key key (codes "PresharedKey") (codes "Address") e refl,
          other_key key (codes "PresharedKey") (codes "DNS") e refl,
          other_key key (codes "PresharedKey") (codes "MTU") e refl,
        )
        refl
]

peer_entry-secret :
    (v : Vpn) (key a b : Bytes) → names_secret key ≡ true → peer_entry v key a ≡ peer_entry v key b
unfolding peer_entry ci_eq tolower
peer_entry-secret v key a b h = elim (secret_cases key h) [
  | inl e ↦
      rw
        (
          other_key key (codes "PrivateKey") (codes "PublicKey") e refl,
          other_key key (codes "PrivateKey") (codes "PresharedKey") e refl,
          other_key key (codes "PrivateKey") (codes "AllowedIPs") e refl,
          other_key key (codes "PrivateKey") (codes "Endpoint") e refl,
          other_key key (codes "PrivateKey") (codes "PersistentKeepalive") e refl,
        )
        refl
  | inr e ↦ rw (other_key key (codes "PresharedKey") (codes "PublicKey") e refl, e) refl
]

wg_entry-secret :
    (sec : Section) (v : Vpn) (key a b : Bytes)
    → names_secret key ≡ true
    → wg_entry sec v (some (key, a)) ≡ wg_entry sec v (some (key, b))
unfolding wg_entry
wg_entry-secret sec v [] a b h = refl
wg_entry-secret sec_none v (k ∷ key) a b h = refl
wg_entry-secret sec_iface v (k ∷ key) a b h = iface_entry-secret v (k ∷ key) a b h
wg_entry-secret sec_peer v (k ∷ key) a b h = peer_entry-secret v (k ∷ key) a b h

key_of : Option (Bytes × Bytes) → Bytes
key_of none = []
key_of (some (key, val)) = key

header_of :
    (o : Option (Bytes × Bytes)) (key a : Bytes)
    → trim_both (before_byte b'[' o) ≡ some (key, a)
    → names_secret key ≡ false
unfolding trim trim_front trim_back isspace ci_eq tolower key_of
header_of none key a h = cc
header_of (some (bf, af)) key a h = ap (λ o. names_secret (key_of o)) (sym h)

-- The key of a section's header does not name a secret.
header_key :
    (c : ℕ) (s key a : Bytes)
    → c ≡ b'['
    → key_value (c ∷ s) ≡ some (key, a)
    → names_secret key ≡ false
unfolding key_value split_first
header_key c s key a e h =
    header_of (split_first b'=' s) key a (ap (λ d. key_value (d ∷ s)) (sym e) ∙ h)

no_entry : (key a : Bytes) → key_value [] ≢ some (key, a)
unfolding key_value split_first
no_entry key a h = cc

wg_clean-entry :
    (sec : Section) (v : Vpn) (line key a : Bytes)
    → key_value line ≡ some (key, a)
    → names_secret key ≡ true
    → wg_clean (sec, v) line ≡ (sec, wg_entry sec v (some (key, a)))
unfolding wg_clean
wg_clean-entry sec v [] key a h k = absurd (no_entry key a h)
wg_clean-entry sec v (c ∷ line) key a h k = elim (Bool-cases (c == b'[')) [
  | inl e ↦ absurd (false_ne_true (sym (header_key c line key a (ground arith) h) ∙ k))
  | inr e ↦ rw (e, h) refl
]

wg_line-secret :
    (st : Section × Vpn) (l l' key a b : Bytes)
    → key_value (clean_line l) ≡ some (key, a)
    → key_value (clean_line l') ≡ some (key, b)
    → names_secret key ≡ true
    → wg_line st l ≡ wg_line st l'
unfolding wg_line
wg_line-secret (sec, v) l l' key a b h h' k =
    wg_clean-entry sec v (clean_line l) key a h k
    ∙ ap (λ w. (sec, w)) (wg_entry-secret sec v key a b k)
    ∙ sym (wg_clean-entry sec v (clean_line l') key b h' k)

wg_lines-secret :
    (st : Section × Vpn) (before after : List Bytes) (l l' key a b : Bytes)
    → key_value (clean_line l) ≡ some (key, a)
    → key_value (clean_line l') ≡ some (key, b)
    → names_secret key ≡ true
    → wg_lines st (before ++ l ∷ after) ≡ wg_lines st (before ++ l' ∷ after)
unfolding wg_lines
wg_lines-secret st [] after l l' key a b h h' k =
    ap (λ s. wg_lines s after) (wg_line-secret st l l' key a b h h' k)
wg_lines-secret st (x ∷ before) after l l' key a b h h' k =
    wg_lines-secret (wg_line st x) before after l l' key a b h h' k

-- Two WireGuard texts whose lines differ only in the value behind one PrivateKey or PresharedKey,
-- in any mixture of cases, are parsed to the same result.
pub parse_wireguard-secret :
    (text text' : Bytes) (before after : List Bytes) (l l' key a b : Bytes)
    → raw_lines (skip_bom text) ≡ before ++ l ∷ after
    → raw_lines (skip_bom text') ≡ before ++ l' ∷ after
    → key_value (clean_line l) ≡ some (key, a)
    → key_value (clean_line l') ≡ some (key, b)
    → names_secret key ≡ true
    → parse_wireguard text ≡ parse_wireguard text'
unfolding parse_wireguard
parse_wireguard-secret text text' before after l l' key a b e e' h h' k =
    let st : Section × Vpn = (sec_none, record init { kind = wireguard }) in
    ap (λ (s : Section × Vpn). (s.1, some_endpoint s.1))
      (ap (wg_lines st) e
        ∙ wg_lines-secret st before after l l' key a b h h' k
        ∙ ap (wg_lines st) (sym e'))
