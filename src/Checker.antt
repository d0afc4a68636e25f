-- ===== src/Checker.antt =====
-- src/core/pmx_checker.c: the checker's queues. Each function is one step under the checker's mutex;
-- between two steps of the worker other calls may come.
use proxi_might.Prelude.{
  ℕ, zero, suc, ◌+◌, ◌-◌, Bool, true, false, Option, none, some, List, [], ◌∷◌, ◌++◌, ◌==◌,
  if◌then◌else◌, length,
}
use proxi_might.Prelude.Bytes.{Bytes}
use proxi_might.Prelude.Decimal.{ℤ, pos, negsuc}
use proxi_might.Status.{Status, ok}
use proxi_might.Chain.{Chain}
use proxi_might.Proxy.{Proxy}
use proxi_might.Profile.{CheckOpts}
pub mod Check
pub mod Order
pub mod Tests

-- pmx_check_result
pub record CheckResult : Type 0 where
  pub proxy_id : ℕ
  pub hop_index : ℤ
  pub reachable : Bool
  pub handshake_ok : Bool
  pub latency_ms : ℤ
  pub ping_ms : ℤ
  pub status : Status
  pub egress_ip : Bytes
  pub message : Bytes
  pub checked_at_ms : ℕ

-- check_job
pub record Job : Type 0 where
  pub proxy : Proxy
  pub hop_index : ℤ

-- pmx_checker, with the job that the worker has in hand
pub record Checker : Type 0 where
  pub opts : CheckOpts
  pub running : Bool
  pub jobs : List Job
  pub in_hand : Option Job
  pub results : List CheckResult
  pub pending : ℕ

-- pmx_checker_create
abbrev pub checker_create : CheckOpts → Checker
checker_create opts = record {
  opts = opts;
  running = true;
  jobs = [];
  in_hand = none;
  results = [];
  pending = 0;
}

-- pmx_checker_set_opts
abbrev pub set_opts : Checker → CheckOpts → Checker
set_opts chk opts = record chk { opts = opts }

-- enqueue_job
unfoldable pub enqueue_job : Checker → Proxy → ℤ → Checker
enqueue_job chk p hop = record chk {
  jobs = chk.jobs ++ record { proxy = p; hop_index = hop } ∷ [];
  pending = chk.pending + 1;
}

-- pmx_checker_submit
unfoldable pub submit : Checker → Proxy → Checker
unfolding enqueue_job
submit chk p = enqueue_job chk p (negsuc 0)

-- The first proxy with the id.
unfoldable pub proxy_with : ℕ → List Proxy → Option Proxy
proxy_with id [] = none
proxy_with id (p ∷ ps) = let rest = proxy_with id ps in if p.id == id then some p else rest

abbrev pub enqueue_found : Checker → ℕ → Option Proxy → Checker
enqueue_found chk h none = chk
enqueue_found chk h (some p) = enqueue_job chk p (pos h)

-- The hops from the place `h` on.
unfoldable pub submit_hops : Checker → ℕ → List ℕ → List Proxy → Checker
unfolding enqueue_job proxy_with
submit_hops chk h [] proxies = chk
submit_hops chk h (id ∷ ids) proxies =
    submit_hops (enqueue_found chk h (proxy_with id proxies)) (suc h) ids proxies

-- pmx_checker_submit_chain as one step; the source takes the mutex anew for each hop.
unfoldable pub submit_chain : Checker → Chain → List Proxy → Checker
unfolding submit_hops
submit_chain chk c proxies = submit_hops chk 0 c.hops proxies

-- The first job taken, for a worker with nothing in hand.
abbrev pub taken_job : Checker → Option Job → List Job → Checker
taken_job chk (some j) js = chk
taken_job chk none [] = chk
taken_job chk none (j ∷ js) = record chk { jobs = js; in_hand = some j }

-- checker_worker up to the check: a job taken, unless the checker stops or the worker has one.
unfoldable pub worker_take : Checker → Checker
worker_take chk = if chk.running then taken_job chk chk.in_hand chk.jobs else chk

-- The result that a job gets.
abbrev pub result_of : Job → CheckResult → CheckResult
result_of j r = record r { hop_index = j.hop_index; proxy_id = j.proxy.id }

abbrev pub with_result : Checker → CheckResult → Option Job → Checker
with_result chk r none = chk
with_result chk r (some j) = record chk {
  in_hand = none;
  results = chk.results ++ result_of j r ∷ [];
  pending = chk.pending - 1;
}

-- checker_worker behind the check, which gave `r`.
unfoldable pub worker_push : Checker → CheckResult → Checker
worker_push chk r = with_result chk r chk.in_hand

abbrev pub polled_from : Checker → List CheckResult → Checker × Option CheckResult
polled_from chk [] = (chk, none)
polled_from chk (r ∷ rs) = (record chk { results = rs }, some r)

-- pmx_checker_poll
unfoldable pub checker_poll : Checker → Checker × Option CheckResult
checker_poll chk = polled_from chk chk.results

-- The first step of pmx_checker_destroy.
abbrev pub stop_checker : Checker → Checker
stop_checker chk = record chk { running = false }
