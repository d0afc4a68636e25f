-- ===== src/Vpn/Blocks.antt =====
-- src/core/pmx_vpn.c: inline blocks of an OpenVPN file, and the lines between their tags.
use proxi_might.Prelude.{
  ℕ, ◌≤◌, ◌≡◌, ◌≢◌, refl, sym, ap, ◌∙◌, Bool, true, false, ◌||◌, Option, none, some, List, [], ◌∷◌,
  ◌++◌, length, take, take_all, length-take, All, arith, inl, inr, Bool-cases, Option-cases,
}
use proxi_might.Prelude.Bytes.{Bytes, strlcpy, byte_eq, byte_eq_iff}
use proxi_might.Rule.Patterns.{is_empty}
use proxi_might.Vpn.Text.{is_empty-ne, ci_eq, trim, cut_line, split_first, before_or_all}
use proxi_might.Vpn.OpenVpn.{
  Ovpn, is_secret_tag, is_parsed_container_tag, tag_text, closed_tag, opened_tag, skip_line,
  open_block, trimmed_line, ovpn_line, ovpn_lines,
}

-- The tags that a line of the file opens and closes.
abbrev pub opens : Bytes → Option Bytes
opens l = opened_tag (trim (cut_line l))

abbrev pub closes : Bytes → Option Bytes
closes l = closed_tag (trim (cut_line l))

split_first-length :
    (b : ℕ) (s before after : Bytes)
    → split_first b s ≡ some (before, after)
    → length before ≤ length s
unfolding split_first
split_first-length b [] before after h = cc
split_first-length b (c ∷ s) before after h = elim (Option-cases (split_first b s)) [
  | inl e ↦ ground (arith, e)
  | inr ((bs, as1), e) ↦ ground (arith, e, split_first-length b s bs as1 e)
]

length-before_or_all : (s : Bytes) → length (before_or_all s (split_first b'>' s)) ≤ length s
length-before_or_all s = elim (Option-cases (split_first b'>' s)) [
  | inl e ↦ rw e (omega arith)
  | inr ((bs, as1), e) ↦ rw e (split_first-length b'>' s bs as1 e)
]

length-tag_text : (s : Bytes) → length (tag_text s) ≤ 63
unfolding strlcpy
length-tag_text s = omega (arith, length-before_or_all (take 63 s), length-take 63 s)

opened_tag-length : (s t : Bytes) → opened_tag s ≡ some t → length t ≤ 63
unfolding opened_tag
opened_tag-length [] t h = cc
opened_tag-length (a ∷ []) t h = ground arith
opened_tag-length (a ∷ b ∷ s) t h = ground (arith, length-tag_text (b ∷ s))

-- An opening line outside a skipped block.
pub line_opens :
    (st : Ovpn) (l t : Bytes)
    → is_empty st.skipping ≡ true
    → opens l ≡ some t
    → ovpn_line st l ≡ open_block st t
unfolding ovpn_line trimmed_line
line_opens st l t h e = rw (h, e) refl

-- Any line inside a skipped block.
pub line_skipped :
    (st : Ovpn) (l : Bytes)
    → is_empty st.skipping ≡ false
    → ovpn_line st l ≡ skip_line st (closes l)
unfolding ovpn_line trimmed_line
line_skipped st l h = rw h refl

skip_other : (st : Ovpn) (o : Option Bytes) → o ≢ some st.skipping → skip_line st o ≡ st
skip_other st none h = refl
skip_other st (some tag) h = elim (Bool-cases (byte_eq tag st.skipping)) [
  | inl e ↦ absurd (h (ap some ((byte_eq_iff tag st.skipping).0 e)))
  | inr e ↦ rw e refl
]

skip_own :
    (st : Ovpn) (o : Option Bytes)
    → o ≡ some st.skipping
    → skip_line st o ≡ record st { skipping = [] }
skip_own st o h = rw (h, (byte_eq_iff st.skipping st.skipping).1 refl) refl

lines_skipped :
    (st : Ovpn) (body rest : List Bytes)
    → is_empty st.skipping ≡ false
    → All (λ l. closes l ≢ some st.skipping) body
    → ovpn_lines st (body ++ rest) ≡ ovpn_lines st rest
unfolding ovpn_lines
lines_skipped st [] rest h hb = refl
lines_skipped st (l ∷ body) rest h (hl, hb) =
    ap (λ k. ovpn_lines k (body ++ rest)) (line_skipped st l h ∙ skip_other st (closes l) hl)
    ∙ lines_skipped st body rest h hb

-- The parser inside a block that it skips.
unfoldable pub inside : Ovpn → Bytes → Ovpn
unfolding is_secret_tag
inside st t = record st {
  out = record (st.out) { has_inline_secrets = st.out.has_inline_secrets || is_secret_tag t };
  skipping = t;
}

open_block-inside :
    (st : Ovpn) (t : Bytes)
    → length t ≤ 63
    → is_parsed_container_tag t ≡ false
    → open_block st t ≡ inside st t
unfolding open_block strlcpy inside
open_block-inside st t hl hp =
    rw hp (ap (λ k. record (inside st t) { skipping = k }) (take_all 63 t hl))

-- Between a line that opens an inline block of an OpenVPN file, whose tag is neither empty nor
-- connection, and the first line that closes that tag, the parser reads nothing as configuration:
-- it goes on behind the block as before it, with has_inline_secrets set if the tag names a
-- secret. The parser stands outside any skipped block when the block starts.
pub block_skipped :
    (st : Ovpn) (first last t : Bytes) (body after : List Bytes)
    → is_empty st.skipping ≡ true
    → opens first ≡ some t
    → t ≢ []
    → is_parsed_container_tag t ≡ false
    → All (λ l. closes l ≢ some t) body
    → closes last ≡ some t
    → ovpn_lines st (first ∷ body ++ last ∷ after)
      ≡ ovpn_lines (record (inside st t) { skipping = [] }) after
unfolding ovpn_lines inside
block_skipped st first last t body after hs ho ht hp hb hc =
    ap (λ k. ovpn_lines k (body ++ last ∷ after))
      (line_opens st first t hs ho
        ∙ open_block-inside st t (opened_tag-length (trim (cut_line first)) t ho) hp)
    ∙ lines_skipped (inside st t) body (last ∷ after) (is_empty-ne t ht) hb
    ∙ ap (λ k. ovpn_lines k after)
        (line_skipped (inside st t) last (is_empty-ne t ht)
          ∙ skip_own (inside st t) (closes last) hc)

or_false : (b : Bool) → b || false ≡ b
or_false true = refl
or_false false = refl

-- A tag with no name starts no skipped block.
open_block-nil : (st : Ovpn) → st.skipping ≡ [] → open_block st [] ≡ st
unfolding open_block strlcpy is_secret_tag ci_eq byte_eq
open_block-nil st hs =
    ap (λ (b : Bool). record st { out = record (st.out) { has_inline_secrets = b }; skipping = [] })
      (or_false st.out.has_inline_secrets)
    ∙ ap (λ k. record st { skipping = k }) (sym hs)

-- A line `<>`: what follows it is read as if the line were not there.
pub empty_tag_block :
    (st : Ovpn) (first : Bytes) (rest : List Bytes)
    → st.skipping ≡ []
    → opens first ≡ some []
    → ovpn_lines st (first ∷ rest) ≡ ovpn_lines st rest
unfolding ovpn_lines
empty_tag_block st first rest hs ho =
    ap (λ k. ovpn_lines k rest) (line_opens st first [] (ap is_empty hs) ho ∙ open_block-nil st hs)
