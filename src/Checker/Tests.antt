-- ===== src/Checker/Tests.antt =====
-- src/core/pmx_checker.c: runs of the checker.
use proxi_might.Prelude.{◌≡◌, refl, some, List, [], ◌∷◌, inl, true}
use proxi_might.Prelude.Bytes.{codes}
use proxi_might.Prelude.Decimal.{pos}
use proxi_might.Proxy.{Proxy, init}
use proxi_might.Profile.{check_opts_defaults}
use proxi_might.Handshake.Socket.{Socket, chunk}
use proxi_might.Checker.{CheckResult}
use proxi_might.Checker.Check.{Network, check_proxy}
use proxi_might.Checker.Order.{
  Step, submitted, took, pushed, polled, stopped, at_start, run, IsInOrder, run-IsInOrder,
}

abbrev granting : Socket
granting = record {
  sent = [];
  room = 100 ∷ 100 ∷ 100 ∷ [];
  arriving = chunk (5 ∷ 0 ∷ 5 ∷ 0 ∷ 0 ∷ 1 ∷ 127 ∷ 0 ∷ 0 ∷ 1 ∷ 0 ∷ 80 ∷ []) ∷ [];
}

abbrev network : Network
network = record {
  ping = some (pos 12);
  connected = inl granting;
  egress_connected = inl granting;
  started_ms = 1000;
  shaken_ms = 1040;
  finished_ms = 1041;
}

abbrev proxy : Proxy
proxy = record init { id = 5; host = codes "a.example" }

abbrev seen_result : CheckResult
seen_result = check_proxy proxy check_opts_defaults network

reports_latency : seen_result.latency_ms ≡ pos 40
unfolding check_proxy
reports_latency = refl

reports_success : seen_result.handshake_ok ≡ true
unfolding check_proxy init
reports_success = refl

abbrev steps : List Step
steps =
    submitted proxy
    ∷ submitted (record proxy { id = 6 })
    ∷ took
    ∷ polled
    ∷ pushed seen_result
    ∷ took
    ∷ polled
    ∷ stopped
    ∷ []

run-IsInOrder_example :
    IsInOrder
      (run (at_start check_opts_defaults) steps).asked
      (run (at_start check_opts_defaults) steps).given
      (run (at_start check_opts_defaults) steps).chk
run-IsInOrder_example = run-IsInOrder check_opts_defaults steps
