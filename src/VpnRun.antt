-- ===== src/VpnRun.antt =====
-- src/core/pmx_vpn_run.c: tunnels brought up and down by the vendor's client. What a program that is
-- run, or started as a child, does is an argument.
use proxi_might.Prelude.{
  ℕ, zero, suc, ◌+◌, ◌-◌, ◌%◌, ◌≤◌, Bool, true, false, ◌&&◌, ◌||◌, not, Option, none, some, List,
  [], ◌∷◌, ◌++◌, ltb, leb, ◌==◌, if◌then◌else◌, length, take, set, get_elem?, replicate, ◌⊎◌, inl,
  inr,
}
use proxi_might.Prelude.Bytes.{Bytes, codes, strlcpy}
use proxi_might.Prelude.Decimal.{ℤ, pos, negsuc, decimal}
use proxi_might.Status.{
  Status, ok, is_ok, err_not_found, err_invalid_arg, err_state, err_permission,
}
use proxi_might.Rule.Patterns.{is_empty}
use proxi_might.Vpn.{Vpn, VpnKind, wireguard, openvpn}
use proxi_might.Vpn.Load.{command_text, Client, basename_of, vpn_validate, dash, is_wireguard}
pub mod Evidence
pub mod Kept
pub mod Query
pub mod Tests

abbrev pub max_tracked : ℕ
max_tracked = 8

abbrev pub mgmt_base : ℕ
mgmt_base = 25340

abbrev pub max_msg : ℕ
max_msg = 192

pub data VpnState : Type 0 where
  down starting running failed : VpnState

-- vpn_entry; `proc` names the child, if there is one
pub record VpnEntry : Type 0 where
  pub id : ℕ
  pub used : Bool
  pub kind : VpnKind
  pub state : VpnState
  pub message : Bytes
  pub tunnel_name : Bytes
  pub proc : Option ℕ
  pub mgmt_port : ℕ
  pub stopping : Bool

abbrev pub Runner : Type 0
Runner = List VpnEntry

abbrev pub blank : VpnEntry
blank = record {
  id = 0;
  used = false;
  kind = wireguard;
  state = down;
  message = [];
  tunnel_name = [];
  proc = none;
  mgmt_port = 0;
  stopping = false;
}

-- pmx_vpn_runner_create
abbrev pub runner_create : Runner
runner_create = replicate max_tracked blank

-- pmx_vpn_state_str
unfoldable pub state_str : VpnState → Bytes
state_str down = codes "Down"
state_str starting = codes "Starting"
state_str running = codes "Client running"
state_str failed = codes "Failed"

abbrev pub next_place : Option ℕ → Option ℕ
next_place none = none
next_place (some i) = some (suc i)

-- The first entry that passes a test, by its place.
unfoldable pub first_index : (VpnEntry → Bool) → Runner → Option ℕ
first_index test [] = none
first_index test (e ∷ es) =
    let rest = next_place (first_index test es) in if test e then some zero else rest

abbrev pub tracks : ℕ → VpnEntry → Bool
tracks id e = e.used && e.id == id

abbrev pub is_free : VpnEntry → Bool
is_free e = not e.used

unfoldable pub has_ended : VpnState → Bool
has_ended down = true
has_ended starting = false
has_ended running = false
has_ended failed = true

unfoldable pub has_child : Option ℕ → Bool
has_child none = false
has_child (some p) = true

abbrev pub is_finished : VpnEntry → Bool
is_finished e = not (has_child e.proc) && has_ended e.state

abbrev pub claimed : ℕ → VpnEntry
claimed id = record blank { used = true; id = id }

-- A slot for the id: its own, else a free one, else one that is finished.
abbrev pub slot_for : Option ℕ → Option ℕ → Option ℕ → Option (ℕ × Bool)
slot_for (some i) _ _ = some (i, false)
slot_for none (some i) _ = some (i, true)
slot_for none none (some i) = some (i, true)
slot_for none none none = none

abbrev pub with_slot : Runner → ℕ → Option (ℕ × Bool) → Option (Runner × ℕ)
with_slot r id none = none
with_slot r id (some (i, false)) = some (r, i)
with_slot r id (some (i, true)) = some (set r i (claimed id), i)

-- entry_for with `create`: the entries, and the place of the one for the id
unfoldable pub entry_for : Runner → ℕ → Option (Runner × ℕ)
unfolding first_index has_ended has_child
entry_for r id =
    with_slot r id
      (slot_for (first_index (tracks id) r) (first_index is_free r) (first_index is_finished r))

abbrev pub entry_at : Runner → Option ℕ → Option VpnEntry
entry_at r none = none
entry_at r (some i) = get_elem? r i

-- entry_for without `create`
unfoldable pub find_entry : Runner → ℕ → Option VpnEntry
unfolding first_index
find_entry r id = entry_at r (first_index (tracks id) r)

-- base_name_no_ext, which is basename_of of src/core/pmx_vpn.c once more
unfoldable pub base_name_no_ext : Bytes → ℕ → Bytes
unfolding basename_of
base_name_no_ext path cap = basename_of path cap

-- char cmd[PMX_MAX_PATH + 128]
abbrev pub command_size : ℕ
command_size = 1152

-- What pmx_proc_run gives for a command.
pub record Ran : Type 0 where
  pub status : Status
  pub code : ℤ
  pub text : Bytes

-- %d
unfoldable pub int_text : ℤ → Bytes
unfolding decimal
int_text (pos n) = decimal n
int_text (negsuc n) = b'-' ∷ decimal (n + 1)

abbrev pub is_zero : ℤ → Bool
is_zero (pos zero) = true
is_zero _ = false

-- The rest of pmx_vpn_up for WireGuard.
unfoldable pub up_wireguard : VpnEntry → Vpn → Bytes → Bool → (Bytes → Ran) → VpnEntry × Status
unfolding base_name_no_ext int_text strlcpy command_text
up_wireguard e v exe elevated run =
    if not elevated
    then (
      record e {
        state = failed;
        message =
            strlcpy []
              (codes "WireGuard needs Administrator to install the tunnel service "
                ++ dash
                ++ codes " restart ProxiMight elevated.")
              max_msg;
      },
      err_permission,
    )
    else let name = base_name_no_ext v.config_path 64 in
      let ran = run (take (command_size - 1) (command_text wireguard exe v.config_path)) in
      if is_ok ran.status && is_zero ran.code
      then (
        record e {
          tunnel_name = name;
          state = running;
          message =
              take (max_msg - 1)
                (codes "tunnel service '" ++ name ++ codes "' installed (handshake not verified)");
        },
        ok,
      )
      else (
        record e {
          tunnel_name = name;
          state = failed;
          message = take (max_msg - 1) (
              codes "wireguard.exe exited "
              ++ int_text ran.code
              ++ (if is_empty ran.text then [] else codes ": ")
              ++ ran.text);
        },
        err_state,
      )

abbrev pub spawn_message : Status → Bytes
spawn_message err_permission =
    codes "openvpn.exe needs elevation (is the interactive service running?)"
spawn_message _ = codes "could not start openvpn.exe"

-- The entry after pmx_proc_spawn, which names the child or fails.
unfoldable pub started : VpnEntry → ℕ ⊎ Status → VpnEntry × Status
unfolding strlcpy
started e (inl p) = (
  record e {
    proc = some p;
    message = strlcpy [] (codes "openvpn client started (handshake not verified)") max_msg;
  },
  ok,
)
started e (inr s) = (record e { state = failed; message = strlcpy [] (spawn_message s) max_msg }, s)

-- The rest of pmx_vpn_up for OpenVPN, on slot `i`; a child that was there has been freed.
unfoldable pub up_openvpn : VpnEntry → Vpn → ℕ → Bytes → (Bytes → ℕ ⊎ Status) → VpnEntry × Status
unfolding started decimal
up_openvpn e v i exe spawn =
    let port = if e.mgmt_port == 0 then mgmt_base + i else e.mgmt_port in
    started (record e { mgmt_port = port; proc = none; state = starting })
      (spawn (
        take (command_size - 1) (
          codes "\""
          ++ exe
          ++ codes "\" --config \""
          ++ v.config_path
          ++ codes "\" --management 127.0.0.1 "
          ++ decimal port)))

abbrev pub stored : Runner → ℕ → VpnEntry × Status → Runner × Status
stored r i p = (set r i p.0, p.1)

-- What the runner asks of the operating system.
pub record Host : Type 0 where
  pub elevated : Bool
  pub run : Bytes → Ran
  pub spawn : Bytes → ℕ ⊎ Status

abbrev pub up_entry : VpnKind → VpnEntry → ℕ → Vpn → Bytes → Host → VpnEntry × Status
up_entry wireguard e i v exe host = up_wireguard e v exe host.elevated host.run
up_entry openvpn e i v exe host = up_openvpn e v i exe host.spawn

abbrev pub up_found : Runner → ℕ → Vpn → Bytes → Host → Option VpnEntry → Runner × Status
up_found r i v exe host none = (r, err_state)
up_found r i v exe host (some e) =
    stored r i (up_entry v.kind (record e { kind = v.kind; stopping = false }) i v exe host)

abbrev pub up_at : Runner → Vpn → Bytes → Host → Option (Runner × ℕ) → Runner × Status
up_at r v exe host none = (r, err_state)
up_at r v exe host (some (r', i)) = up_found r' i v exe host (get_elem? r' i)

-- pmx_vpn_up
unfoldable pub vpn_up : Runner → Vpn → Client → Host → Runner × Status
unfolding vpn_validate entry_for up_wireguard up_openvpn
vpn_up r v client host =
    if not client.found
    then (r, err_not_found)
    else if not (is_ok (vpn_validate v [] 128).0)
    then (r, err_invalid_arg)
    else up_at r v client.path host (entry_for r v.id)

-- The entry after pmx_vpn_down for a client that was found, if WireGuard needs it.
unfoldable pub down_entry : VpnKind → VpnEntry → Vpn → Bool → VpnEntry × Status
unfolding base_name_no_ext strlcpy
down_entry wireguard e v found =
    if not found then (record e { stopping = true }, err_not_found) else (
      record e {
        stopping = true;
        tunnel_name =
            if is_empty e.tunnel_name then base_name_no_ext v.config_path 64 else e.tunnel_name;
        state = down;
        message = strlcpy [] (codes "tunnel service removed") max_msg;
      },
      ok,
    )
down_entry openvpn e v found = (
  record e {
    stopping = true;
    proc = none;
    state = down;
    message = strlcpy [] (codes "openvpn client stopped") max_msg;
  },
  ok,
)

abbrev pub down_at : Runner → Vpn → Bool → Option ℕ → Runner × Status
down_at r v found none = (r, ok)
down_at r v found (some i) = elim (get_elem? r i) [
  | none ↦ (r, ok)
  | some e ↦ stored r i (down_entry v.kind e v found)
]

-- pmx_vpn_down; `found` tells that there is a client and that it was found
unfoldable pub vpn_down : Runner → Vpn → Bool → Runner × Status
unfolding down_entry first_index
vpn_down r v found = down_at r v found (first_index (tracks v.id) r)

-- An entry whose child has ended with `code`.
unfoldable pub exited : VpnEntry → ℤ → VpnEntry
unfolding int_text
exited e code = if e.stopping then record e { proc = none; state = down } else record e {
  proc = none;
  state = failed;
  message = take (max_msg - 1) (
      codes "openvpn exited unexpectedly (code "
      ++ int_text code
      ++ codes ") "
      ++ dash
      ++ codes " check its log");
}

abbrev pub is_starting : VpnState → Bool
is_starting starting = true
is_starting _ = false

-- What a child does: it runs, or has ended with a code.
abbrev pub polled : VpnEntry → Option ℤ → VpnEntry
polled e none = if is_starting e.state then record e { state = running } else e
polled e (some code) = exited e code

unfoldable pub poll_entry : (ℕ → Option ℤ) → VpnEntry → Option ℕ → VpnEntry
unfolding exited
poll_entry ended e none = e
poll_entry ended e (some p) = if not e.used then e else polled e (ended p)

-- pmx_vpn_runner_poll; `ended` gives the exit code of a child that no longer runs
unfoldable pub runner_poll : (ℕ → Option ℤ) → Runner → Runner
unfolding poll_entry
runner_poll ended [] = []
runner_poll ended (e ∷ es) = poll_entry ended e e.proc ∷ runner_poll ended es

-- pmx_vpn_runner_state and pmx_vpn_runner_message
unfoldable pub runner_state : Runner → ℕ → VpnState
unfolding find_entry
runner_state r id = elim (find_entry r id) [ none ↦ down | some e ↦ e.state ]

unfoldable pub runner_message : Runner → ℕ → Bytes
unfolding find_entry
runner_message r id = elim (find_entry r id) [ none ↦ [] | some e ↦ e.message ]
