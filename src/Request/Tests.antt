-- ===== src/Request/Tests.antt =====
-- Runs and witnesses for the retry policy.
use opfs.Prelude.{ℕ, zero, suc, ◌-◌, ◌≤◌, ◌≡◌, refl, none, Bool, true, false, ltb, if◌then◌else◌}
use opfs.Failure.{ok, type_error}
use opfs.Request.{
  Outcome, returned, raised, Raised, plain_error, retries_exhausted, RequestMetrics, RequestPolicy,
  ResolvedPolicy, get_request_policy, integer, count_request, count_response, prepare, run_attempt,
  get_attempts, send_attempts, send_request, Client, Sending, Sender, Retried, done, refused, spent,
  again, Documented, is_retriable, is_retry_status, max_safe_integer,
}
use opfs.Request.Policy.{get_request_policy-bounds}
use opfs.Request.Counters.{Accounts, send_request-Accounts}
use opfs.Request.Markers.{Answers, send_request-Answers}

-- The library's loop, without waits and without cancellation.
on_error : {W : Type 0} → ℕ → Raised → Sending W → Sender W → Bool → Outcome × Sending W
on_error n e t rest false = (raised e, t)
on_error zero e t rest true = (raised (retries_exhausted e), t)
on_error (suc n) e t rest true = rest t

after_attempt : {W : Type 0} → ℕ → Outcome × Sending W → Sender W → Outcome × Sending W
unfolding on_error is_retriable
after_attempt n (returned r, t) rest = (returned r, t)
after_attempt n (raised e, t) rest = on_error n e t rest (is_retriable e)

plain_retry : {W : Type 0} → ℕ → Sender W → Sender W
unfolding after_attempt
plain_retry zero step s = (raised (plain_error type_error), s)
plain_retry (suc n) step s = after_attempt n (step s) (plain_retry n step)

abbrev Runs : {W : Type 0} → ℕ → Sender W → Sending W → Outcome × Sending W → Type 0
Runs n step s p = Retried step n s p.0 p.1

abbrev Continues : {W : Type 0} → ℕ → Sender W → Sender W → Type 0
Continues zero step rest = Unit
Continues {W} (suc n) step rest = (t : Sending W) → Runs (suc n) step t (rest t)

on_error-Runs :
    {W : Type 0} (n : ℕ) (step rest : Sender W) (s : Sending W) (x : Raised) (t : Sending W)
    (b : Bool)
    → step s ≡ (raised x, t)
    → is_retriable x ≡ b
    → Continues n step rest
    → Runs (suc n) step s (on_error n x t rest b)
unfolding on_error
on_error-Runs n step rest s x t false e r h = refused e r
on_error-Runs zero step rest s x t true e r h = spent e r
on_error-Runs (suc n) step rest s x t true e r h = again t.world e r (h t)

after_attempt-Runs :
    {W : Type 0} (n : ℕ) (step rest : Sender W) (s : Sending W) (p : Outcome × Sending W)
    → step s ≡ p
    → Continues n step rest
    → Runs (suc n) step s (after_attempt n p rest)
unfolding after_attempt
after_attempt-Runs n step rest s (returned r, t) e h = done e
after_attempt-Runs n step rest s (raised x, t) e h =
    on_error-Runs n step rest s x t (is_retriable x) e refl h

plain_retry-Runs :
    {W : Type 0} (n : ℕ) (step : Sender W) (s : Sending W)
    → Runs (suc n) step s (plain_retry (suc n) step s)
unfolding plain_retry
plain_retry-Runs zero step s = after_attempt-Runs zero step _ s (step s) refl tt
plain_retry-Runs (suc n) step s =
    after_attempt-Runs (suc n) step _ s (step s) refl λ t. plain_retry-Runs n step t

plain_Documented : {W : Type 0} → Documented {W = W} plain_retry
plain_Documented n step s = plain_retry-Runs n step s

-- A service that is busy for some calls, behind signals that are never aborted.
abbrev busy : Client ℕ ℕ
busy = record {
  create = λ w. (ok 7, w);
  fetch = λ request w. (ok (record { status = if ltb 0 w then 503 else 200; identity = w }), w - 1);
  caller_abort = λ w. none;
  attempt_abort = λ w. none;
  preempts = λ w. false;
  now = λ w. 100 - w;
}

abbrev fresh : RequestMetrics
fresh = record {
  timing = false;
  requests = 0;
  retries = 0;
  failures = 0;
  responses = 0;
  duration_ms = 0;
}

abbrev defaults : RequestPolicy
defaults = record { retries = none; min_delay_ms = none; max_delay_ms = none }

abbrev resolved_defaults : ResolvedPolicy
resolved_defaults = record { retries = 3; min_delay_ms = 200; max_delay_ms = 20_000 }

resolved : get_request_policy defaults ≡ ok resolved_defaults
unfolding get_request_policy integer
resolved = refl

answered :
    (send_request busy plain_retry defaults true 2 fresh).0
    ≡ returned (record { status = 200; identity = 0 })
unfolding send_request get_request_policy integer get_attempts send_attempts run_attempt prepare
    is_retry_status count_request count_response plain_retry after_attempt on_error is_retriable
answered = refl

given_up : (send_request busy plain_retry defaults true 9 fresh).1.metrics.retries ≡ 3
unfolding send_request get_request_policy integer get_attempts send_attempts run_attempt prepare
    is_retry_status count_request count_response plain_retry after_attempt on_error is_retriable
given_up = refl

send_request-Accounts_example :
    Accounts fresh 4 (send_request busy plain_retry defaults true 2 fresh)
send_request-Accounts_example =
    send_request-Accounts busy fresh plain_retry plain_Documented defaults resolved_defaults true 2
      resolved

send_request-Answers_example : Answers busy 4 (send_request busy plain_retry defaults true 9 fresh)
send_request-Answers_example =
    send_request-Answers busy fresh plain_retry plain_Documented defaults resolved_defaults true 9
      resolved

get_request_policy-bounds_example :
    (200 ≤ 20_000) × (20_000 ≤ max_safe_integer) × (3 ≤ max_safe_integer)
get_request_policy-bounds_example = get_request_policy-bounds defaults resolved_defaults resolved
