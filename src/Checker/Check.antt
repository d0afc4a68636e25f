-- ===== src/Checker/Check.antt =====
-- src/core/pmx_checker.c: one check of a proxy. The ping, the sockets that are connected and the
-- clock's readings are arguments.
use proxi_might.Prelude.{
  ℕ, zero, suc, ◌+◌, ◌-◌, ◌%◌, ◌^◌, Bool, true, false, ◌&&◌, ◌||◌, Option, none, some, [], ◌∷◌,
  ◌++◌, ◌==◌, ltb, leb, if◌then◌else◌, length, take, ◌⊎◌, inl, inr,
}
use proxi_might.Prelude.Bytes.{Bytes, codes}
use proxi_might.Prelude.Decimal.{ℤ, pos, negsuc}
use proxi_might.Status.{Status, ok, is_ok, status_str}
use proxi_might.Rule.Patterns.{is_empty}
use proxi_might.Vpn.Text.{up_to}
use proxi_might.Vpn.Load.{dash}
use proxi_might.VpnRun.{int_text, max_msg}
use proxi_might.Proxy.{Proxy, type_str}
use proxi_might.Profile.{CheckOpts}
use proxi_might.Handshake.Http.{crlf}
use proxi_might.Handshake.Socket.{Socket, send_all, recv_some}
use proxi_might.Handshake.Run.{handshake}
use proxi_might.Checker.{CheckResult}

-- The outcomes of what pmx_check_proxy asks the operating system for: the round trip of a ping that
-- was answered, the two sockets, and the clock before the connect, behind the handshake and at the end.
pub record Network : Type 0 where
  pub ping : Option ℤ
  pub connected : Socket ⊎ Status
  pub egress_connected : Socket ⊎ Status
  pub started_ms : ℕ
  pub shaken_ms : ℕ
  pub finished_ms : ℕ

-- The text behind the first empty line, `none` if there is none.
unfoldable pub body_of : Bytes → Option Bytes
body_of (a ∷ b ∷ c ∷ d ∷ s) =
    let rest = body_of (b ∷ c ∷ d ∷ s) in
    if a == 13 && b == 10 && c == 13 && d == 10 then some s else rest
body_of _ = none

abbrev is_blank : ℕ → Bool
is_blank c = c == 32 || c == 13 || c == 10

unfoldable pub skip_blank : Bytes → Bytes
skip_blank [] = []
skip_blank (c ∷ s) = let rest = skip_blank s in if is_blank c then rest else c ∷ s

unfoldable pub first_word : Bytes → Bytes
first_word [] = []
first_word (c ∷ s) = let rest = first_word s in if is_blank c then [] else c ∷ rest

abbrev ip_of : ℕ → Option Bytes → Bytes
ip_of ip_cap none = []
ip_of ip_cap (some body) = take (ip_cap - 1) (first_word (skip_blank body))

abbrev read_more : (Bytes → Socket → Bytes) → Bytes → (Bytes ⊎ Status) × Socket → Bytes
read_more next resp (inr e, s) = resp
read_more next resp (inl got, s) = next (resp ++ got) s

-- The loop that fills `char resp[2048]`, of eight rounds at most.
unfoldable pub egress_rounds : ℕ → Bytes → Socket → Bytes
unfolding recv_some
egress_rounds zero resp s = resp
egress_rounds (suc n) resp s =
    if leb 2047 (length resp)
    then resp
    else read_more (egress_rounds n) resp (recv_some (2047 - length resp) s)

unfoldable pub egress_request : CheckOpts → Bytes
egress_request opts =
    codes "GET "
    ++ (if is_empty opts.egress_path then codes "/" else opts.egress_path)
    ++ codes " HTTP/1.1"
    ++ crlf
    ++ codes "Host: "
    ++ opts.egress_service
    ++ crlf
    ++ codes "User-Agent: ProxiMight/checker"
    ++ crlf
    ++ codes "Connection: close"
    ++ crlf
    ++ crlf

abbrev egress_answer : ℕ → (Unit {0} ⊎ Status) × Socket → Bytes
egress_answer ip_cap (inr e, s) = []
egress_answer ip_cap (inl u, s) = ip_of ip_cap (body_of (up_to 0 (egress_rounds 8 [] s)))

abbrev egress_shaken : CheckOpts → ℕ → (Unit {0} ⊎ Status) × Socket → Bytes
egress_shaken opts ip_cap (inr e, s) = []
egress_shaken opts ip_cap (inl u, s) = egress_answer ip_cap (send_all (egress_request opts) s)

abbrev egress_over : Proxy → CheckOpts → ℕ → Socket ⊎ Status → Bytes
egress_over p opts ip_cap (inr e) = []
egress_over p opts ip_cap (inl s) = egress_shaken opts ip_cap (handshake p opts.egress_service 80 s)

-- measure_egress, into a buffer of `ip_cap` bytes
unfoldable pub measure_egress : Proxy → CheckOpts → ℕ → Socket ⊎ Status → Bytes
unfolding handshake egress_request egress_rounds body_of skip_blank first_word send_all
measure_egress p opts ip_cap connected =
    if is_empty opts.egress_service then [] else egress_over p opts ip_cap connected

abbrev ping_of : Option ℤ → ℤ
ping_of none = negsuc 0
ping_of (some rtt) = rtt

-- The result's fields before the connect.
abbrev pub fresh_result : Proxy → CheckOpts → Network → CheckResult
fresh_result p opts net = record {
  proxy_id = p.id;
  hop_index = negsuc 0;
  reachable = false;
  handshake_ok = false;
  latency_ms = negsuc 0;
  ping_ms = if opts.measure_ping then ping_of net.ping else negsuc 0;
  status = ok;
  egress_ip = [];
  message = [];
  checked_at_ms = net.finished_ms;
}

abbrev status_of : (Unit {0} ⊎ Status) × Socket → Status
status_of (inl u, s) = ok
status_of (inr e, s) = e

-- (int)v
abbrev to_int : ℕ → ℤ
to_int v = let m = v % 2 ^ 32 in if ltb m (2 ^ 31) then pos m else negsuc (2 ^ 32 - 1 - m)

-- The result of a handshake with status `st`.
unfoldable pub shaken : Proxy → CheckOpts → Network → Status → CheckResult
unfolding measure_egress int_text type_str status_str
shaken p opts net st =
    let latency = to_int (net.shaken_ms + 2 ^ 64 - net.started_ms) in
    record (fresh_result p opts net) {
      reachable = true;
      handshake_ok = is_ok st;
      latency_ms = latency;
      status = st;
      egress_ip =
          if is_ok st && opts.measure_egress_ip
          then measure_egress p opts 64 net.egress_connected
          else [];
      message = take (max_msg - 1) (
          if is_ok st
          then codes "OK via "
            ++ type_str p.type
            ++ codes " "
            ++ dash
            ++ codes " "
            ++ int_text latency
            ++ codes " ms"
          else codes "reachable, but " ++ status_str st);
    }

abbrev check_over : Proxy → CheckOpts → Network → Socket ⊎ Status → CheckResult
check_over p opts net (inr st) = record (fresh_result p opts net) {
  status = st;
  message = take (max_msg - 1) (codes "unreachable: " ++ status_str st);
}
check_over p opts net (inl s) =
    shaken p opts net (status_of (handshake p opts.probe_host opts.probe_port s))

-- pmx_check_proxy, whose status is that of the result
unfoldable pub check_proxy : Proxy → CheckOpts → Network → CheckResult
unfolding shaken handshake status_str
check_proxy p opts net = check_over p opts net net.connected
