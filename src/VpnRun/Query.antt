-- ===== src/VpnRun/Query.antt =====
-- src/core/pmx_vpn_run.c: pmx_vpn_query_status. The program that is run and the socket that is opened
-- are arguments.
use proxi_might.Prelude.{
  ℕ, zero, suc, ◌-◌, Bool, ◌||◌, not, Option, none, some, [], ◌∷◌, ◌++◌, ◌==◌, leb, if◌then◌else◌,
  length, take, set, get_elem?, ◌⊎◌, inl, inr,
}
use proxi_might.Prelude.Bytes.{Bytes, codes, strlcpy}
use proxi_might.Status.{Status, is_ok, err_not_found, err_state, err_net}
use proxi_might.Rule.Patterns.{is_empty}
use proxi_might.Vpn.{Vpn, VpnKind, wireguard, openvpn}
use proxi_might.Vpn.Text.{split_last, contains}
use proxi_might.Vpn.Load.{Client, dash}
use proxi_might.Handshake.Socket.{Socket, send_all, recv_some}
use proxi_might.VpnRun.{
  VpnEntry, Runner, Ran, max_msg, command_size, base_name_no_ext, is_zero, int_text, first_index,
  tracks,
}
use proxi_might.VpnRun.Evidence.{VpnStatus, no_status, wg_parse_dump, ovpn_parse_state}

abbrev slash_dir : Option (Bytes × Bytes) → Bytes
slash_dir none = []
slash_dir (some (dir, _)) = dir

abbrev or_slash : Bytes → Option (Bytes × Bytes) → Bytes
or_slash path (some (dir, _)) = dir
or_slash path none = slash_dir (split_last b'/' path)

-- The directory of the client's program.
unfoldable pub client_dir : Bytes → Bytes
unfolding split_last
client_dir path = or_slash path (split_last 92 path)

unfoldable pub refused : Bytes → VpnStatus
unfolding strlcpy
refused text = record no_status { detail = strlcpy [] text max_msg }

abbrev wg_answer : Ran → ℕ → VpnStatus × Status
wg_answer ran now_epoch =
    if not (is_ok ran.status) || not (is_zero ran.code)
    then (
      refused (
          codes "wg show failed (exit "
          ++ int_text ran.code
          ++ codes ") "
          ++ dash
          ++ codes " usually needs Administrator"),
      err_state,
    )
    else wg_parse_dump ran.text now_epoch

abbrev with_name : VpnEntry → Vpn → VpnEntry
with_name e v =
    if is_empty e.tunnel_name
    then record e { tunnel_name = base_name_no_ext v.config_path 64 }
    else e

-- The part for WireGuard: the entry, which may get its name, and the answer.
unfoldable pub query_wireguard :
    VpnEntry → Vpn → Client → (Bytes → Ran) → ℕ → VpnEntry × (VpnStatus × Status)
unfolding client_dir base_name_no_ext refused int_text wg_parse_dump
query_wireguard e v client run now_epoch =
    if not client.found
    then (e, (refused (codes "WireGuard client not found"), err_not_found))
    else let e' = with_name e v in
      (
        e',
        wg_answer
            (run (
              take (command_size - 1) (
                codes "\""
                ++ client_dir client.path
                ++ codes "\\wg.exe\" show \""
                ++ e'.tunnel_name
                ++ codes "\" dump")))
            now_epoch,
      )

abbrev reply_ended : Bytes → Bool
reply_ended text = contains (10 ∷ codes "END") text || contains (13 ∷ codes "END") text

abbrev read_on : (Bytes → Socket → Bytes) → Bytes → (Bytes ⊎ Status) × Socket → Bytes
read_on next text (inr e, s) = text
read_on next text (inl got, s) =
    if reply_ended (text ++ got) then text ++ got else next (text ++ got) s

-- The loop that reads the reply, of eight rounds at most.
unfoldable pub reply_rounds : ℕ → Bytes → Socket → Bytes
unfolding recv_some contains
reply_rounds zero text s = text
reply_rounds (suc n) text s =
    if leb 4095 (length text)
    then text
    else read_on (reply_rounds n) text (recv_some (4095 - length text) s)

abbrev ovpn_answer : Socket ⊎ Status → VpnStatus × Status
ovpn_answer (inr e) =
    (refused (codes "management socket unreachable (is the client running?)"), err_net)
ovpn_answer (inl s) = ovpn_parse_state (reply_rounds 8 [] (send_all (codes "state" ++ 10 ∷ []) s).1)

-- The part for OpenVPN.
unfoldable pub query_openvpn : VpnEntry → (ℕ → Socket ⊎ Status) → VpnStatus × Status
unfolding refused reply_rounds ovpn_parse_state send_all
query_openvpn e connect =
    if e.mgmt_port == 0
    then (refused (codes "no management port for this tunnel"), err_state)
    else ovpn_answer (connect e.mgmt_port)

abbrev query_entry :
    VpnKind
    → VpnEntry
    → Vpn
    → Client
    → (Bytes → Ran)
    → (ℕ → Socket ⊎ Status)
    → ℕ
    → VpnEntry × (VpnStatus × Status)
query_entry wireguard e v client run connect now_epoch = query_wireguard e v client run now_epoch
query_entry openvpn e v client run connect now_epoch = (e, query_openvpn e connect)

abbrev query_found :
    Runner
    → ℕ
    → Vpn
    → Client
    → (Bytes → Ran)
    → (ℕ → Socket ⊎ Status)
    → ℕ
    → Option VpnEntry
    → Runner × (VpnStatus × Status)
query_found r i v client run connect now_epoch none =
    (r, (refused (codes "not started by ProxiMight"), err_not_found))
query_found r i v client run connect now_epoch (some e) =
    let p = query_entry v.kind e v client run connect now_epoch in (set r i p.0, p.1)

abbrev query_at :
    Runner
    → Vpn
    → Client
    → (Bytes → Ran)
    → (ℕ → Socket ⊎ Status)
    → ℕ
    → Option ℕ
    → Runner × (VpnStatus × Status)
query_at r v client run connect now_epoch none =
    (r, (refused (codes "not started by ProxiMight"), err_not_found))
query_at r v client run connect now_epoch (some i) =
    query_found r i v client run connect now_epoch (get_elem? r i)

-- pmx_vpn_query_status
unfoldable pub query_status :
    Runner
    → Vpn
    → Client
    → (Bytes → Ran)
    → (ℕ → Socket ⊎ Status)
    → ℕ
    → Runner × (VpnStatus × Status)
unfolding query_wireguard query_openvpn first_index
query_status r v client run connect now_epoch =
    query_at r v client run connect now_epoch (first_index (tracks v.id) r)
