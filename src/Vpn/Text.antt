-- ===== src/Vpn/Text.antt =====
-- src/core/pmx_vpn.c: the helpers on lines and tokens, over texts with no NUL in them.
use proxi_might.Prelude.{
  ◌≡◌, refl, ◌≢◌, ℕ, zero, ◌-◌, ◌%◌, Bool, true, false, ◌&&◌, ◌||◌, Option, none, some, List, [],
  ◌∷◌, ◌==◌, if◌then◌else◌, take, leb,
}
use proxi_might.Prelude.Bytes.{Bytes, codes, isspace, tolower}
use proxi_might.Prelude.Decimal.{ℤ, pos, negsuc, strtol}
use proxi_might.Rule.Patterns.{is_empty, trim_front, trim_back}

unfoldable pub trim : Bytes → Bytes
unfolding trim_front trim_back
trim s = trim_back (trim_front s)

unfoldable pub ci_eq : Bytes → Bytes → Bool
unfolding tolower
ci_eq [] [] = true
ci_eq (a ∷ s) (b ∷ t) = let rest = ci_eq s t in tolower a == tolower b && rest
ci_eq _ _ = false

unfoldable pub strip_comment : Bytes → Bool → Bytes
strip_comment [] semicolon_too = []
strip_comment (c ∷ s) semicolon_too =
    let rest = strip_comment s semicolon_too in
    if c == b'#' || (semicolon_too && c == b';') then [] else c ∷ rest

-- A byte put before the first of some pieces.
abbrev pub onto_first : ℕ → List Bytes → List Bytes
onto_first c [] = (c ∷ []) ∷ []
onto_first c (l ∷ ls) = (c ∷ l) ∷ ls

-- The lines that the parsers' loops visit, before they are cut to the buffer.
unfoldable pub raw_lines : Bytes → List Bytes
raw_lines [] = []
raw_lines (c ∷ s) = let rest = raw_lines s in if c == 10 then [] ∷ rest else onto_first c rest

-- char line[1024]
abbrev pub max_line : ℕ
max_line = 1024

abbrev pub cut_line : Bytes → Bytes
cut_line l = take (max_line - 1) l

-- The pieces between white space, empty ones too.
unfoldable pub pieces : Bytes → List Bytes
unfolding isspace
pieces [] = []
pieces (c ∷ s) = let rest = pieces s in if isspace c then [] ∷ rest else onto_first c rest

unfoldable pub nonempty : List Bytes → List Bytes
nonempty [] = []
nonempty (l ∷ ls) = let rest = nonempty ls in if is_empty l then rest else l ∷ rest

unfoldable pub tokenize : Bytes → ℕ → List Bytes
unfolding pieces nonempty
tokenize line max = take max (nonempty (pieces line))

abbrev pub before_byte : ℕ → Option (Bytes × Bytes) → Option (Bytes × Bytes)
before_byte c none = none
before_byte c (some (before, after)) = some (c ∷ before, after)

-- strchr: what stands before the first such byte and what stands behind it
unfoldable pub split_first : ℕ → Bytes → Option (Bytes × Bytes)
split_first b [] = none
split_first b (c ∷ s) =
    let rest = before_byte c (split_first b s) in if c == b then some ([], s) else rest

abbrev pub or_here : Bool → Bytes → Option (Bytes × Bytes) → Option (Bytes × Bytes)
or_here here s (some found) = some found
or_here true s none = some ([], s)
or_here false s none = none

-- strrchr: the same at the last such byte
unfoldable pub split_last : ℕ → Bytes → Option (Bytes × Bytes)
split_last b [] = none
split_last b (c ∷ s) = or_here (c == b) s (before_byte c (split_last b s))

-- The text before the first such byte, or all of it.
abbrev pub before_or_all : Bytes → Option (Bytes × Bytes) → Bytes
before_or_all s none = s
before_or_all s (some (before, _)) = before

abbrev pub up_to : ℕ → Bytes → Bytes
up_to b s = before_or_all s (split_first b s)

unfoldable pub starts_with : Bytes → Bytes → Bool
starts_with [] s = true
starts_with (p ∷ ps) [] = false
starts_with (p ∷ ps) (c ∷ s) = let rest = starts_with ps s in p == c && rest

-- strstr(text, p) != NULL, for a text `p` that is not empty
unfoldable pub contains : Bytes → Bytes → Bool
unfolding starts_with
contains p [] = false
contains p (c ∷ s) = let rest = contains p s in starts_with p (c ∷ s) || rest

abbrev pub value_of : Option (ℤ × Bytes) → ℤ
value_of none = pos 0
value_of (some (v, _)) = v

-- strtol(s, NULL, 10)
abbrev pub number : Bytes → ℤ
number s = value_of (strtol s)

-- (pmx_port)v
abbrev pub to_port : ℤ → ℕ
to_port (pos n) = n % 65536
to_port (negsuc n) = 65535 - n % 65536

abbrev pub in_port_range : ℤ → Bool
in_port_range (pos zero) = false
in_port_range (pos n) = leb n 65535
in_port_range (negsuc n) = false

abbrev pub if_port : Bytes → ℤ → Option (Bytes × ℕ)
if_port host p = if in_port_range p then some (host, to_port p) else none

unfoldable pub hostport_plain : ℕ → Option (Bytes × Bytes) → Option (Bytes × ℕ)
hostport_plain hcap none = none
hostport_plain hcap (some ([], after)) = none
hostport_plain hcap (some (c ∷ host, after)) = if_port (take (hcap - 1) (c ∷ host)) (number after)

unfoldable pub hostport_bracket : ℕ → Option (Bytes × Bytes) → Option (Bytes × ℕ)
hostport_bracket hcap none = none
hostport_bracket hcap (some (host, [])) = none
hostport_bracket hcap (some (host, c ∷ after)) =
    if c == b':' then if_port (take (hcap - 1) host) (number after) else none

-- parse_hostport, `none` where it returns false
unfoldable pub parse_hostport : Bytes → ℕ → Option (Bytes × ℕ)
unfolding hostport_plain hostport_bracket split_first split_last strtol
parse_hostport [] hcap = none
parse_hostport (c ∷ s) hcap =
    if c == b'['
    then hostport_bracket hcap (split_first b']' s)
    else hostport_plain hcap (split_last b':' (c ∷ s))

unfoldable pub skip_bom : Bytes → Bytes
skip_bom (a ∷ b ∷ c ∷ s) = if a == 0xEF && b == 0xBB && c == 0xBF then s else a ∷ b ∷ c ∷ s
skip_bom s = s

unfoldable pub allowed_ips_is_full_tunnel : Bytes → Bool
unfolding contains
allowed_ips_is_full_tunnel val =
    contains (codes "0.0.0.0/0") val
    || contains (codes "::/0") val
    || (contains (codes "0.0.0.0/1") val && contains (codes "128.0.0.0/1") val)
    || (contains (codes "::/1") val && contains (codes "8000::/1") val)

pub is_empty-ne : (t : Bytes) → t ≢ [] → is_empty t ≡ false
is_empty-ne [] h = absurd (h refl)
is_empty-ne (c ∷ t) h = refl
