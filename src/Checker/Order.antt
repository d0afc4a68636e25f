-- ===== src/Checker/Order.antt =====
-- src/core/pmx_checker.c: the order of the jobs and their results through any calls.
use mathlib.Core.Path.{subst}
use proxi_might.Prelude.{
  ℕ, suc, ◌+◌, ◌≡◌, refl, sym, ap, ◌∙◌, Option, none, some, List, [], ◌∷◌, ◌++◌, length, map, arith,
  append_assoc, append-nil, length-append, on_branches,
}
use proxi_might.Prelude.Decimal.{ℤ, pos, negsuc}
use proxi_might.Chain.{Chain}
use proxi_might.Proxy.{Proxy}
use proxi_might.Profile.{CheckOpts}
use proxi_might.Checker.{
  CheckResult, Job, Checker, checker_create, set_opts, enqueue_job, submit, proxy_with,
  enqueue_found, submit_hops, submit_chain, taken_job, worker_take, result_of, with_result,
  worker_push, polled_from, checker_poll, stop_checker,
}

-- A call, or a step of the worker.
pub data Step : Type 0 where
  submitted : Proxy → Step
  chain_submitted : Chain → List Proxy → Step
  opts_set : CheckOpts → Step
  took polled stopped : Step
  pushed : CheckResult → Step

-- What tells one check from another.
abbrev pub Label : Type 0
Label = ℕ × ℤ

abbrev pub label_of_job : Job → Label
label_of_job j = (j.proxy.id, j.hop_index)

abbrev pub label_of_result : CheckResult → Label
label_of_result r = (r.proxy_id, r.hop_index)

abbrev pub label_of_found : ℕ → Option Proxy → List Label
label_of_found h none = []
label_of_found h (some p) = (p.id, pos h) ∷ []

-- The labels that a chain's hops add, from the place `h` on.
unfoldable pub hop_labels : ℕ → List ℕ → List Proxy → List Label
unfolding proxy_with
hop_labels h [] proxies = []
hop_labels h (id ∷ ids) proxies =
    label_of_found h (proxy_with id proxies) ++ hop_labels (suc h) ids proxies

abbrev pub in_hand_labels : Option Job → List Label
in_hand_labels none = []
in_hand_labels (some j) = label_of_job j ∷ []

-- What is still to be given out, in order.
abbrev pub queue : Checker → List Label
queue chk =
    map label_of_result chk.results ++ (in_hand_labels chk.in_hand ++ map label_of_job chk.jobs)

-- The checker with all that was asked of it and all that it gave out.
pub record History : Type 0 where
  pub chk : Checker
  pub asked : List Label
  pub given : List Label

abbrev pub gave : History → Checker × Option CheckResult → History
gave t (chk, none) = record t { chk = chk }
gave t (chk, some r) = record t { chk = chk; given = t.given ++ label_of_result r ∷ [] }

unfoldable pub happen : History → Step → History
unfolding submit submit_chain hop_labels worker_take worker_push checker_poll
happen t (submitted p) = record t { chk = submit t.chk p; asked = t.asked ++ (p.id, negsuc 0) ∷ [] }
happen t (chain_submitted c proxies) = record t {
  chk = submit_chain t.chk c proxies;
  asked = t.asked ++ hop_labels 0 c.hops proxies;
}
happen t (opts_set opts) = record t { chk = set_opts t.chk opts }
happen t took = record t { chk = worker_take t.chk }
happen t (pushed r) = record t { chk = worker_push t.chk r }
happen t polled = gave t (checker_poll t.chk)
happen t stopped = record t { chk = stop_checker t.chk }

unfoldable pub run : History → List Step → History
unfolding happen
run t [] = t
run t (s ∷ ss) = run (happen t s) ss

-- All that was asked has been given out or stands in the queue, in the order in which it was asked,
-- and the counter is the number of checks without a result.
unfoldable pub IsInOrder : List Label → List Label → Checker → Type 0
IsInOrder asked given chk =
    (asked ≡ given ++ queue chk)
    × (chk.pending ≡ length (in_hand_labels chk.in_hand) + length chk.jobs)

map-append : {A B : Type 0} (f : A → B) (xs ys : List A) → map f (xs ++ ys) ≡ map f xs ++ map f ys
map-append f [] ys = refl
map-append f (x ∷ xs) ys = ap (λ t. f x ∷ t) (map-append f xs ys)

enqueue-IsInOrder :
    (asked given : List Label) (chk : Checker) (p : Proxy) (h : ℤ)
    → IsInOrder asked given chk
    → IsInOrder (asked ++ (p.id, h) ∷ []) given (enqueue_job chk p h)
unfolding IsInOrder enqueue_job
enqueue-IsInOrder asked given chk p h (e, n) =
    let job : Job = record { proxy = p; hop_index = h } in
    let x : List Label = (p.id, h) ∷ [] in
    let front = map label_of_result chk.results in
    let hand = in_hand_labels chk.in_hand in
    let back = map label_of_job chk.jobs in
    (
      ap (λ t. t ++ x) e
          ∙ append_assoc given (queue chk) x
          ∙ ap (λ t. given ++ t)
              (append_assoc front (hand ++ back) x
                ∙ ap (λ t. front ++ t)
                    (append_assoc hand back x
                      ∙ ap (λ t. hand ++ t) (sym (map-append label_of_job chk.jobs (job ∷ []))))),
      omega (arith, n, length-append chk.jobs (job ∷ [])),
    )

taken-IsInOrder :
    (asked given : List Label) (chk : Checker) (hand : Option Job) (jobs : List Job)
    → chk.in_hand ≡ hand
    → chk.jobs ≡ jobs
    → IsInOrder asked given chk
    → IsInOrder asked given (taken_job chk hand jobs)
unfolding IsInOrder
taken-IsInOrder asked given chk (some j) js eh ej h = h
taken-IsInOrder asked given chk none [] eh ej h = h
taken-IsInOrder asked given chk none (j ∷ js) eh ej (e, n) =
    let front = map label_of_result chk.results in
    (
      e
          ∙ ap (λ t. given ++ (front ++ t))
              (ap (λ o. in_hand_labels o ++ map label_of_job chk.jobs) eh
                ∙ ap (λ t. map label_of_job t) ej),
      omega (arith, n, ap (λ o. length (in_hand_labels o)) eh, ap length ej),
    )

take-IsInOrder :
    (asked given : List Label) (chk : Checker)
    → IsInOrder asked given chk
    → IsInOrder asked given (worker_take chk)
unfolding worker_take
take-IsInOrder asked given chk h =
    on_branches (IsInOrder asked given) chk.running _ _
      (λ _. taken-IsInOrder asked given chk chk.in_hand chk.jobs refl refl h) (λ _. h)

push-IsInOrder :
    (asked given : List Label) (chk : Checker) (r : CheckResult) (hand : Option Job)
    → chk.in_hand ≡ hand
    → IsInOrder asked given chk
    → IsInOrder asked given (with_result chk r hand)
unfolding IsInOrder
push-IsInOrder asked given chk r none eh h = h
push-IsInOrder asked given chk r (some j) eh (e, n) =
    let front = map label_of_result chk.results in
    let back = map label_of_job chk.jobs in
    let x : List Label = label_of_job j ∷ [] in
    (
      e
          ∙ ap (λ t. given ++ t)
              (ap (λ o. front ++ (in_hand_labels o ++ back)) eh
                ∙ sym (append_assoc front x back)
                ∙ ap (λ t. t ++ back)
                    (sym (map-append label_of_result chk.results (result_of j r ∷ [])))),
      omega (arith, n, ap (λ o. length (in_hand_labels o)) eh),
    )

found-IsInOrder :
    (asked given : List Label) (chk : Checker) (h : ℕ) (o : Option Proxy)
    → IsInOrder asked given chk
    → IsInOrder (asked ++ label_of_found h o) given (enqueue_found chk h o)
found-IsInOrder asked given chk h none k =
    subst (λ a. IsInOrder a given chk) (sym (append-nil asked)) k
found-IsInOrder asked given chk h (some p) k = enqueue-IsInOrder asked given chk p (pos h) k

set-IsInOrder :
    (asked given : List Label) (chk : Checker) (opts : CheckOpts)
    → IsInOrder asked given chk
    → IsInOrder asked given (set_opts chk opts)
unfolding IsInOrder
set-IsInOrder asked given chk opts h = h

stop-IsInOrder :
    (asked given : List Label) (chk : Checker)
    → IsInOrder asked given chk
    → IsInOrder asked given (stop_checker chk)
unfolding IsInOrder
stop-IsInOrder asked given chk h = h

hops-IsInOrder :
    (asked given : List Label) (chk : Checker) (h : ℕ) (ids : List ℕ) (proxies : List Proxy)
    → IsInOrder asked given chk
    → IsInOrder (asked ++ hop_labels h ids proxies) given (submit_hops chk h ids proxies)
unfolding submit_hops hop_labels
hops-IsInOrder asked given chk h [] proxies k =
    subst (λ a. IsInOrder a given chk) (sym (append-nil asked)) k
hops-IsInOrder asked given chk h (id ∷ ids) proxies k =
    subst (λ a. IsInOrder a given (submit_hops chk h (id ∷ ids) proxies))
      (append_assoc asked (label_of_found h (proxy_with id proxies))
        (hop_labels (suc h) ids proxies))
      (hops-IsInOrder (asked ++ label_of_found h (proxy_with id proxies)) given
        (enqueue_found chk h (proxy_with id proxies)) (suc h) ids proxies
        (found-IsInOrder asked given chk h (proxy_with id proxies) k))

IsKept : History → Type 0
unfolding IsInOrder
IsKept t = IsInOrder t.asked t.given t.chk

gave-IsKept :
    (t : History) (chk : Checker) (rs : List CheckResult)
    → chk.results ≡ rs
    → IsInOrder t.asked t.given chk
    → IsKept (gave t (polled_from chk rs))
unfolding IsKept IsInOrder
gave-IsKept t chk [] er h = h
gave-IsKept t chk (r ∷ rs) er (e, n) =
    let rest = in_hand_labels chk.in_hand ++ map label_of_job chk.jobs in
    (
      e
          ∙ ap (λ x. t.given ++ (map label_of_result x ++ rest)) er
          ∙ sym (append_assoc t.given (label_of_result r ∷ []) (map label_of_result rs ++ rest)),
      n,
    )

happen-IsKept : (t : History) (s : Step) → IsKept t → IsKept (happen t s)
unfolding happen IsKept submit submit_chain worker_push checker_poll
happen-IsKept t (submitted p) h = enqueue-IsInOrder t.asked t.given t.chk p (negsuc 0) h
happen-IsKept t (chain_submitted c proxies) h =
    hops-IsInOrder t.asked t.given t.chk 0 c.hops proxies h
happen-IsKept t (opts_set opts) h = set-IsInOrder t.asked t.given t.chk opts h
happen-IsKept t took h = take-IsInOrder t.asked t.given t.chk h
happen-IsKept t (pushed r) h = push-IsInOrder t.asked t.given t.chk r t.chk.in_hand refl h
happen-IsKept t polled h = gave-IsKept t t.chk t.chk.results refl h
happen-IsKept t stopped h = stop-IsInOrder t.asked t.given t.chk h

run-IsKept : (t : History) (ss : List Step) → IsKept t → IsKept (run t ss)
unfolding run
run-IsKept t [] h = h
run-IsKept t (s ∷ ss) h = run-IsKept (happen t s) ss (happen-IsKept t s h)

abbrev pub at_start : CheckOpts → History
at_start opts = record { chk = checker_create opts; asked = []; given = [] }

-- After any calls on a new checker and any steps of its one worker, also after a stop, the checks
-- asked for are in order those whose results were polled, those whose results wait, the one in
-- the worker's hand and those that are queued; none is lost or doubled, and the counter of
-- pending checks is the number of those without a result.
pub run-IsInOrder :
    (opts : CheckOpts) (ss : List Step)
    → IsInOrder
        (run (at_start opts) ss).asked
        (run (at_start opts) ss).given
        (run (at_start opts) ss).chk
unfolding IsKept IsInOrder
run-IsInOrder opts ss = run-IsKept (at_start opts) ss (refl, refl)
