-- ===== src/VpnRun/Evidence.antt =====
-- src/core/pmx_vpn_run.c: what the output of `wg show` and the reply of OpenVPN's management socket say
-- of a tunnel.
use proxi_might.Prelude.{
  ℕ, ◌+◌, ◌-◌, ◌%◌, ◌^◌, Bool, true, false, ◌&&◌, ◌||◌, not, Option, none, some, List, [], ◌∷◌,
  ◌++◌, ltb, leb, ◌==◌, if◌then◌else◌, length, take, min,
}
use proxi_might.Prelude.Bytes.{Bytes, codes, strlcpy, byte_eq}
use proxi_might.Prelude.Decimal.{decimal, read_digits, starts_digit, skip_spaces}
use proxi_might.Status.{Status, ok, err_parse}
use proxi_might.Rule.Patterns.{is_empty}
use proxi_might.Vpn.Text.{raw_lines, cut_line, onto_first}
use proxi_might.Vpn.OpenVpn.{arg}
use proxi_might.VpnRun.{max_msg}

-- pmx_vpn_status
pub record VpnStatus : Type 0 where
  pub verified : Bool
  pub connected : Bool
  pub rx_bytes : ℕ
  pub tx_bytes : ℕ
  pub last_handshake_epoch : ℕ
  pub assigned_ip : Bytes
  pub detail : Bytes

abbrev pub no_status : VpnStatus
no_status = record {
  verified = false;
  connected = false;
  rx_bytes = 0;
  tx_bytes = 0;
  last_handshake_epoch = 0;
  assigned_ip = [];
  detail = [];
}

abbrev pub ullong_max : ℕ
ullong_max = 2 ^ 64 - 1

abbrev ull_digits : Bool → Bytes → ℕ
ull_digits negative s =
    let n = min (read_digits 0 s).0 ullong_max in if negative then (2 ^ 64 - n) % 2 ^ 64 else n

unfoldable pub signed_ull : Bytes → ℕ
unfolding read_digits
signed_ull [] = 0
signed_ull (c ∷ s) =
    if c == b'-'
    then ull_digits true s
    else if c == b'+'
    then ull_digits false s
    else ull_digits false (c ∷ s)

-- strtoull(s, NULL, 10)
unfoldable pub strtoull : Bytes → ℕ
unfolding signed_ull skip_spaces
strtoull s = signed_ull (skip_spaces s)

-- The fields between separators, empty ones too.
unfoldable pub fields : ℕ → Bytes → List Bytes
fields sep [] = [] ∷ []
fields sep (c ∷ s) = let rest = fields sep s in if c == sep then [] ∷ rest else onto_first c rest

-- split_fields
unfoldable pub split_fields : Bytes → ℕ → ℕ → List Bytes
unfolding fields
split_fields line sep max = take max (fields sep line)

abbrev pub is_line_end : ℕ → Bool
is_line_end c = c == 13 || c == 10

unfoldable pub without_end : Bytes → Bytes
without_end [] = []
without_end (c ∷ s) =
    let rest = without_end s in if is_line_end c && is_empty rest then [] else c ∷ rest

-- A line as next_line copies it.
unfoldable pub line_text : Bytes → Bytes
unfolding without_end
line_text l = without_end (cut_line l)

-- The part of the loop that reads a peer's line.
abbrev pub add_peer : VpnStatus → List Bytes → VpnStatus
add_peer out f =
    let hs = strtoull (arg f 4) in
    record out {
      last_handshake_epoch =
          if ltb out.last_handshake_epoch hs then hs else out.last_handshake_epoch;
      rx_bytes = (out.rx_bytes + strtoull (arg f 5)) % 2 ^ 64;
      tx_bytes = (out.tx_bytes + strtoull (arg f 6)) % 2 ^ 64;
    }

-- One round of the loop: whether a peer was seen, and the sums.
unfoldable pub wg_dump_line : Bool × VpnStatus → Bytes → Bool × VpnStatus
unfolding split_fields strtoull
wg_dump_line (saw, out) [] = (saw, out)
wg_dump_line (saw, out) (c ∷ line) =
    let f = split_fields (c ∷ line) 9 10 in
    if ltb (length f) 8 then (saw, out) else (true, add_peer out f)

unfoldable pub wg_dump_lines : Bool × VpnStatus → List Bytes → Bool × VpnStatus
unfolding wg_dump_line line_text
wg_dump_lines st [] = st
wg_dump_lines st (l ∷ ls) = wg_dump_lines (wg_dump_line st (line_text l)) ls

-- The bullet of the messages, in UTF-8, with its spaces.
abbrev pub bullet : Bytes
bullet = 32 ∷ 226 ∷ 128 ∷ 162 ∷ 32 ∷ []

abbrev fresh_s : ℕ
fresh_s = 180

-- The verdict from the last handshake.
unfoldable pub wg_verdict : ℕ → VpnStatus → VpnStatus
unfolding decimal strlcpy
wg_verdict now_epoch out =
    let age =
      if ltb out.last_handshake_epoch now_epoch then now_epoch - out.last_handshake_epoch else 0 in
    if out.last_handshake_epoch == 0
    then record out { verified = true; connected = false; detail = codes "no handshake yet" }
    else record out {
      verified = true;
      connected = leb age fresh_s;
      detail = take (max_msg - 1) (
          codes "handshake "
          ++ decimal age
          ++ codes "s ago"
          ++ bullet
          ++ codes "rx "
          ++ decimal out.rx_bytes
          ++ codes " / tx "
          ++ decimal out.tx_bytes
          ++ codes " bytes");
    }

abbrev wg_result : ℕ → Bool × VpnStatus → VpnStatus × Status
wg_result now_epoch (false, out) = (record out { detail = codes "wg reported no peer" }, err_parse)
wg_result now_epoch (true, out) = (wg_verdict now_epoch out, ok)

-- pmx_wg_parse_dump
unfoldable pub wg_parse_dump : Bytes → ℕ → VpnStatus × Status
unfolding wg_dump_lines wg_verdict raw_lines
wg_parse_dump text now_epoch =
    wg_result now_epoch (wg_dump_lines (false, no_status) (raw_lines text))

-- A line of the reply that gives the state: the fields, if they are two at least.
abbrev two_fields : List Bytes → Option (List Bytes)
two_fields (a ∷ b ∷ fs) = some (a ∷ b ∷ fs)
two_fields _ = none

unfoldable pub state_fields : Bytes → Option (List Bytes)
unfolding starts_digit split_fields byte_eq
state_fields line = if not (starts_digit line) then none else two_fields (split_fields line b',' 10)

-- The first line that gives the state.
unfoldable pub first_state : List Bytes → Option (List Bytes)
unfolding state_fields line_text
first_state [] = none
first_state (l ∷ ls) =
    let rest = first_state ls in elim (state_fields (line_text l)) [ none ↦ rest | some f ↦ some f ]

abbrev address_field : List Bytes → Bytes
address_field f = if ltb 3 (length f) && not (is_empty (arg f 3)) then take 63 (arg f 3) else []

unfoldable pub ovpn_state : List Bytes → VpnStatus
unfolding byte_eq
ovpn_state f =
    let ip = address_field f in
    let cause = arg f 2 in
    record no_status {
      verified = true;
      connected = byte_eq (arg f 1) (codes "CONNECTED");
      assigned_ip = ip;
      detail = take (max_msg - 1) (
          if ltb 2 (length f) && not (is_empty cause) && not (byte_eq cause (codes "SUCCESS"))
          then arg f 1 ++ codes " (" ++ cause ++ codes ")"
          else if not (is_empty ip)
          then arg f 1 ++ bullet ++ ip
          else arg f 1);
    }

abbrev ovpn_result : Option (List Bytes) → VpnStatus × Status
ovpn_result none =
    (record no_status { detail = codes "no state line in management reply" }, err_parse)
ovpn_result (some f) = (ovpn_state f, ok)

-- pmx_ovpn_parse_state
unfoldable pub ovpn_parse_state : Bytes → VpnStatus × Status
unfolding first_state ovpn_state raw_lines
ovpn_parse_state text = ovpn_result (first_state (raw_lines text))
