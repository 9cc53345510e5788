-- ===== src/Request.antt =====
-- The retry policy of the HTTP clients (src/request.ts): the policy's defaults, one attempt, the
-- retry loop around it and the counters. What happens outside is a state `W` that each call of the
-- caller's callbacks and each wait may change, and in which the two abort signals are read. A
-- client always hands over its counters, so that they are not optional here. The two proportions
-- of the policy (`multiplier`, `jitter`) only reach the library, and are left out.
use opfs.Prelude.{
  ℕ, suc, ◌+◌, ◌-◌, ◌≡◌, Option, none, some, Bool, true, false, ◌&&◌, ◌||◌, ltb, leb, max, ◌==◌,
  if◌then◌else◌,
}
use opfs.Failure.{Result, ok, throw, Thrown, range_error}
use opfs.Bytes.{or_else}
use opfs.Exec.{Exec}
pub mod Policy
pub mod Counters
pub mod Markers
pub mod Tests

-- A response: its status, and which one it is.
pub record Response : Type 0 where
  pub status : ℕ
  pub identity : ℕ

-- What is thrown on the way: the two internal markers, the library's error around the last
-- failure, or the error of a caller's callback.
pub data Raised : Type 0 where
  retry_response : Response → Raised
  transport_failed : Thrown → Raised
  retries_exhausted : Raised → Raised
  plain_error : Thrown → Raised

pub data Outcome : Type 0 where
  returned : Response → Outcome
  raised : Raised → Outcome

pub record RequestMetrics : Type 0 where
  pub timing : Bool
  pub requests : ℕ
  pub retries : ℕ
  pub failures : ℕ
  pub responses : ℕ
  pub duration_ms : ℕ

unfoldable pub count_request : Bool → RequestMetrics → RequestMetrics
count_request retry_attempt m = record m {
  requests = m.requests + 1;
  retries = if retry_attempt then m.retries + 1 else m.retries;
}

abbrev elapsed : RequestMetrics → Option ℕ → ℕ → ℕ
elapsed m none now = m.duration_ms
elapsed m (some started) now = m.duration_ms + (now - started)

unfoldable pub count_response : Option ℕ → ℕ → RequestMetrics → RequestMetrics
count_response started now m = record m {
  responses = m.responses + 1;
  duration_ms = elapsed m started now;
}

unfoldable pub count_rejected : Option ℕ → ℕ → RequestMetrics → RequestMetrics
count_rejected started now m = record m { duration_ms = elapsed m started now }

unfoldable pub count_failure : RequestMetrics → RequestMetrics
count_failure m = record m { failures = m.failures + 1 }

-- `RequestPolicyType`, whose values are integers that are not negative.
pub record RequestPolicy : Type 0 where
  pub retries : Option ℕ
  pub min_delay_ms : Option ℕ
  pub max_delay_ms : Option ℕ

pub record ResolvedPolicy : Type 0 where
  pub retries : ℕ
  pub min_delay_ms : ℕ
  pub max_delay_ms : ℕ

-- `Number.MAX_SAFE_INTEGER`.
abbrev pub max_safe_integer : ℕ
max_safe_integer = 9_007_199_254_740_991

unfoldable pub integer : Option ℕ → ℕ → ℕ → Result ℕ
integer value fallback minimum =
    let resolved = or_else value fallback in
    if leb resolved max_safe_integer && leb minimum resolved then ok resolved else throw range_error

-- What is done with an integer of the policy that was accepted.
abbrev pub checked : {A : Type 0} → Result ℕ → (ℕ → Result A) → Result A
checked (throw e) next = throw e
checked (ok n) next = next n

unfoldable pub get_request_policy : RequestPolicy → Result ResolvedPolicy
get_request_policy policy = checked (integer policy.retries 3 0) λ count.
    checked (integer policy.min_delay_ms 200 0) λ low.
      checked (integer policy.max_delay_ms 20_000 low)
        λ high. ok (record { retries = count; min_delay_ms = low; max_delay_ms = high })

unfoldable pub is_retry_status : ℕ → Bool
is_retry_status status = status == 408 || status == 429 || leb 500 status

unfoldable pub is_retriable : Raised → Bool
is_retriable (retry_response r) = true
is_retriable (transport_failed e) = true
is_retriable _ = false

abbrev pub transport_cause : Raised → Raised
transport_cause (transport_failed e) = plain_error e
transport_cause e = e

unfoldable pub unwrap : Raised → Raised
unwrap (retries_exhausted e) = transport_cause e
unwrap e = transport_cause e

-- What is outside: the callbacks `create` and `fetch`, the reason of the caller's signal and of the
-- attempt's own (the caller's, or the deadline's) once it is aborted, whether an abort settles
-- before the preparation does, and the clock.
pub record Client (W Input : Type 0) : Type 0 where
  pub create : Exec W Input
  pub fetch : Input → Exec W Response
  pub caller_abort : W → Option Thrown
  pub attempt_abort : W → Option Thrown
  pub preempts : W → Bool
  pub now : W → ℕ

-- The locals of `sendRequest`, the counters and what is outside. The source does not keep `answered`,
-- the number of fetches that returned a response: it is what the counter of responses is held against.
pub record Sending (W : Type 0) : Type 0 where
  pub world : W
  pub attempt : ℕ
  pub fetches : ℕ
  pub answered : ℕ
  pub metrics : RequestMetrics

-- One call of `run`, or of the library's `retry` around it.
abbrev pub Sender : Type 0 → Type 0
Sender W = Sending W → Outcome × Sending W

abbrev pub or_reason : Option Thrown → Thrown → Thrown
or_reason none e = e
or_reason (some reason) e = reason

module _ {W Input : Type 0} (client : Client W Input) where
  -- `throw error` of an attempt's outer `catch`, which tells a deadline from a failed preparation.
  abbrev pub outer_error : Option Thrown → Option Thrown → Raised → Raised
  outer_error (some reason) scoped e = e
  outer_error none scoped (retry_response r) = retry_response r
  outer_error none scoped (transport_failed e) = transport_failed e
  outer_error none none e = e
  outer_error none (some reason) e = transport_failed reason

  abbrev pub raise_outer : Raised → Sender W
  raise_outer e s =
      (raised (outer_error (client.caller_abort s.world) (client.attempt_abort s.world) e), s)

  -- What `fetch` threw, in the inner `catch`.
  abbrev pub inner_error : Option Thrown → Option Thrown → Thrown → Raised
  inner_error (some reason) scoped e = plain_error e
  inner_error none scoped e = transport_failed (or_reason scoped e)

  abbrev pub answer : Bool → Response → Sender W
  answer true response s = raise_outer (retry_response response) s
  answer false response s = (returned response, s)

  abbrev pub received : ℕ → Option ℕ → Result Response × W → Sender W
  received attempts started (ok response, w) s =
      answer (ltb s.attempt attempts && is_retry_status response.status) response (record s {
        world = w;
        answered = s.answered + 1;
        metrics = count_response started (client.now w) s.metrics;
      })
  received attempts started (throw e, w) s =
      raise_outer (inner_error (client.caller_abort w) (client.attempt_abort w) e)
        (record s { world = w; metrics = count_rejected started (client.now w) s.metrics })

  -- The counted `fetch` call.
  abbrev pub publish : ℕ → Input → Sender W
  publish attempts input s =
      received attempts (if s.metrics.timing then some (client.now s.world) else none)
        (client.fetch input s.world)
        (record s { fetches = s.fetches + 1; metrics = count_request (ltb 0 s.fetches) s.metrics })

  -- The two checks between the preparation and the call.
  abbrev pub guarded : ℕ → Option Thrown → Option Thrown → Input → Sender W
  guarded attempts (some reason) scoped input s = raise_outer (plain_error reason) s
  guarded attempts none (some reason) input s = raise_outer (plain_error reason) s
  guarded attempts none none input s = publish attempts input s

  -- `Promise.race` of the preparation and the abort of the attempt.
  abbrev pub race : Bool → Option Thrown → Result Input → Result Input
  race true (some reason) outcome = throw reason
  race _ scoped outcome = outcome

  abbrev pub raced : Result Input × W → Result Input × W
  raced (outcome, w) = (race (client.preempts w) (client.attempt_abort w) outcome, w)

  abbrev pub unless_aborted : Option Thrown → Exec W Input
  unless_aborted (some reason) w = (throw reason, w)
  unless_aborted none w = raced (client.create w)

  unfoldable pub prepare : Exec W Input
  prepare w = unless_aborted (client.attempt_abort w) w

  abbrev pub prepared : ℕ → Result Input × W → Sender W
  prepared attempts (throw e, w) s = raise_outer (plain_error e) (record s { world = w })
  prepared attempts (ok input, w) s =
      guarded attempts (client.caller_abort w) (client.attempt_abort w) input
        (record s { world = w })

  -- `run`: one attempt.
  unfoldable pub run_attempt : ℕ → Sender W
  run_attempt attempts s =
      prepared attempts (prepare s.world) (record s { attempt = s.attempt + 1 })

  abbrev pub end_request : Outcome × Sending W → Outcome × Sending W
  end_request (returned response, s) = (returned response, s)
  end_request (raised e, s) = (raised (unwrap e), record s { metrics = count_failure s.metrics })

  abbrev pub initial : W → RequestMetrics → Sending W
  initial w m = record { world = w; attempt = 0; fetches = 0; answered = 0; metrics = m }

  unfoldable pub get_attempts : Bool → ResolvedPolicy → ℕ
  get_attempts replayable policy = if replayable then suc policy.retries else 1

  module _ (retry : ℕ → Sender W → Sender W) where
    unfoldable pub send_attempts : ℕ → Sender W
    send_attempts attempts s =
        end_request (
          if attempts == 1 then run_attempt attempts s else retry attempts (run_attempt attempts) s)

    abbrev pub send_resolved : Bool → Result ResolvedPolicy → Sender W
    send_resolved replayable (throw e) s = (raised (plain_error e), s)
    send_resolved replayable (ok policy) s = send_attempts (get_attempts replayable policy) s

    -- `sendRequest`.
    unfoldable pub send_request : RequestPolicy → Bool → W → RequestMetrics → Outcome × Sending W
    send_request policy replayable w m =
        send_resolved replayable (get_request_policy policy) (initial w m)

-- What the documentation of `@std/async/retry` says of a call with a number of attempts left: it
-- calls the function until it returns, until its error is not retriable, or until the attempts are
-- spent, and wraps the last error then. It waits in between, and an abort of the signal ends it.
pub data Retried {W : Type 0} (step : Sender W) : ℕ → Sending W → Outcome → Sending W → Type 0 where
  done :
      {n : ℕ} {s t : Sending W} {r : Response}
      → step s ≡ (returned r, t)
      → Retried step (suc n) s (returned r) t
  refused :
      {n : ℕ} {s t : Sending W} {e : Raised}
      → step s ≡ (raised e, t)
      → is_retriable e ≡ false
      → Retried step (suc n) s (raised e) t
  spent :
      {s t : Sending W} {e : Raised}
      → step s ≡ (raised e, t)
      → is_retriable e ≡ true
      → Retried step 1 s (raised (retries_exhausted e)) t
  canceled :
      {n : ℕ} {s : Sending W} (reason : Thrown) (w : W)
      → Retried step (suc n) s (raised (plain_error reason)) (record s { world = w })
  again :
      {n : ℕ} {s t u : Sending W} {e : Raised} {o : Outcome} (w : W)
      → step s ≡ (raised e, t)
      → is_retriable e ≡ true
      → Retried step n (record t { world = w }) o u
      → Retried step (suc n) s o u

abbrev pub Documented : {W : Type 0} → (ℕ → Sender W → Sender W) → Type 0
Documented {W} retry =
    (n : ℕ) (step : Sender W) (s : Sending W)
    → Retried step (suc n) s (retry (suc n) step s).0 (retry (suc n) step s).1
