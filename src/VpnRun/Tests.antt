-- ===== src/VpnRun/Tests.antt =====
-- src/core/pmx_vpn_run.c: runs of the runner.
use proxi_might.Prelude.{◌≡◌, refl, true, none, some, [], ◌∷◌, ◌++◌, get_elem?, inl, set}
use proxi_might.Prelude.Bytes.{Bytes, codes}
use proxi_might.Prelude.Decimal.{pos}
use proxi_might.Status.{ok}
use proxi_might.Vpn.{Vpn, init, openvpn}
use proxi_might.Vpn.Load.{Client}
use proxi_might.VpnRun.{
  VpnEntry, Runner, Host, has_child, has_ended, claimed, running, runner_create, runner_state,
  runner_poll, vpn_up,
}
use proxi_might.VpnRun.Evidence.{wg_parse_dump, ovpn_parse_state}
use proxi_might.VpnRun.Kept.{vpn_up-others}

abbrev host : Host
host = record {
  elevated = true;
  run = λ cmd. record { status = ok; code = pos 0; text = [] };
  spawn = λ cmd. inl 7;
}

abbrev client : Client
client = record { found = true; path = codes "openvpn" }

abbrev tunnel : Vpn
tunnel = record init {
  id = 2;
  kind = openvpn;
  config_path = codes "b.ovpn";
  endpoints = record { host = codes "vpn.example"; port = 1194; udp = true } ∷ [];
}

abbrev alive : VpnEntry
alive = record (claimed 1) { state = running; proc = some 3 }

abbrev busy : Runner
busy = set runner_create 0 alive

vpn_up-others_example : get_elem? (vpn_up busy tunnel client host).0 0 ≡ some alive
unfolding has_child has_ended
vpn_up-others_example = vpn_up-others busy tunnel client host 0 alive refl refl refl refl

starts_then_runs :
    runner_state (runner_poll (λ p. none) (vpn_up busy tunnel client host).0) 2 ≡ running
unfolding runner_state runner_poll vpn_up init
starts_then_runs = refl

abbrev tab : Bytes
tab = 9 ∷ []

reads_dump :
    (wg_parse_dump
      (codes "priv"
        ++ tab
        ++ codes "pub"
        ++ tab
        ++ codes "51820"
        ++ tab
        ++ codes "off"
        ++ 10 ∷ []
        ++ codes "key"
        ++ tab
        ++ codes "psk"
        ++ tab
        ++ codes "1.2.3.4:51820"
        ++ tab
        ++ codes "0.0.0.0/0"
        ++ tab
        ++ codes "1000"
        ++ tab
        ++ codes "20"
        ++ tab
        ++ codes "30"
        ++ tab
        ++ codes "off"
        ++ 10 ∷ [])
      1100).0.connected
    ≡ true
unfolding wg_parse_dump
reads_dump = refl

reads_state :
    (ovpn_parse_state (
      codes "1700000000,CONNECTED,SUCCESS,10.8.0.2,198.51.100.1"
      ++ 13 ∷ 10 ∷ codes "END")).0.assigned_ip
    ≡ codes "10.8.0.2"
unfolding ovpn_parse_state
reads_state = refl
