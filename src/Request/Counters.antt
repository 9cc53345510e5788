-- ===== src/Request/Counters.antt =====
-- The counters of a request against the calls of `fetch` that it made.
use opfs.Prelude.{
  ℕ, suc, ◌+◌, ◌-◌, ◌≤◌, ◌<◌, ◌≡◌, refl, sym, subst, Option, none, some, Bool, true, false, ◌&&◌,
  ltb, ◌==◌, arith, if◌then◌else◌,
}
use opfs.Failure.{Result, ok, throw, Thrown}
use opfs.Request.{
  Response, Outcome, returned, raised, RequestMetrics, count_request, count_response,
  count_rejected, count_failure, RequestPolicy, ResolvedPolicy, get_request_policy, Client, Sending,
  Sender, answer, received, guarded, prepare, prepared, run_attempt, end_request, initial,
  get_attempts, send_attempts, send_resolved, send_request, is_retry_status, Retried, Documented,
  done, refused, spent, canceled, again,
}

-- The counters after the fetches of a request that started with the counters `m`.
pub record Counted {W : Type 0} (m : RequestMetrics) (s : Sending W) : Type 0 where
  pub requests_eq : s.metrics.requests ≡ m.requests + s.fetches
  pub retries_eq : s.metrics.retries ≡ m.retries + (s.fetches - 1)
  pub failures_eq : s.metrics.failures ≡ m.failures
  pub responses_eq : s.metrics.responses ≡ m.responses + s.answered
  pub answered_le : s.answered ≤ s.fetches
  pub within : s.fetches ≤ s.attempt

-- The same with one call under way.
record Published {W : Type 0} (m : RequestMetrics) (n : ℕ) (s : Sending W) : Type 0 where
  requests_eq : s.metrics.requests ≡ m.requests + s.fetches
  retries_eq : s.metrics.retries ≡ m.retries + (s.fetches - 1)
  failures_eq : s.metrics.failures ≡ m.failures
  responses_eq : s.metrics.responses ≡ m.responses + s.answered
  answered_lt : s.answered < s.fetches
  within : s.fetches ≤ s.attempt
  attempt_eq : s.attempt ≡ n

abbrev Counts : {W : Type 0} → RequestMetrics → ℕ → Outcome × Sending W → Type 0
Counts m n p = Counted m p.1 × (p.1.attempt ≡ n)

module _ {W Input : Type 0} (client : Client W Input) (m : RequestMetrics) where
  answer-Counts :
      (n : ℕ) (again : Bool) (r : Response) (s : Sending W)
      → Counted m s
      → s.attempt ≡ n
      → Counts m n (answer client again r s)
  answer-Counts n true r s h e = (h, e)
  answer-Counts n false r s h e = (h, e)

  received-Counts :
      (n attempts : ℕ) (begun : Option ℕ) (p : Result Response × W) (s : Sending W)
      → Published m n s
      → Counts m n (received client attempts begun p s)
  unfolding count_response count_rejected
  received-Counts n attempts begun (ok r, w) s h =
      answer-Counts n (ltb s.attempt attempts && is_retry_status r.status) r _
        (record {
          requests_eq = h.requests_eq;
          retries_eq = h.retries_eq;
          failures_eq = h.failures_eq;
          responses_eq = let l = h.responses_eq in omega arith;
          answered_le = let l = h.answered_lt in omega arith;
          within = h.within;
        })
        h.attempt_eq
  received-Counts n attempts begun (throw e, w) s h = (
    record {
      requests_eq = h.requests_eq;
      retries_eq = h.retries_eq;
      failures_eq = h.failures_eq;
      responses_eq = h.responses_eq;
      answered_le = let l = h.answered_lt in omega arith;
      within = h.within;
    },
    h.attempt_eq,
  )

  next_retries :
      (counted base fetches : ℕ)
      → counted ≡ base + (fetches - 1)
      → (if ltb 0 fetches then counted + 1 else counted) ≡ base + ((fetches + 1) - 1)
  next_retries counted base fetches h = ground arith

  guarded-Counts :
      (n attempts : ℕ) (caller scoped : Option Thrown) (input : Input) (s : Sending W)
      → Counted m s
      → s.attempt ≡ n
      → s.fetches < n
      → Counts m n (guarded client attempts caller scoped input s)
  unfolding count_request
  guarded-Counts n attempts (some reason) scoped input s h e l = (h, e)
  guarded-Counts n attempts none (some reason) input s h e l = (h, e)
  guarded-Counts n attempts none none input s h e l =
      received-Counts n attempts _ (client.fetch input s.world) _ record {
        requests_eq = let q = h.requests_eq in omega arith;
        retries_eq = next_retries s.metrics.retries m.retries s.fetches h.retries_eq;
        failures_eq = h.failures_eq;
        responses_eq = h.responses_eq;
        answered_lt = let q = h.answered_le in omega arith;
        within = omega arith;
        attempt_eq = e;
      }

  moved : (w : W) (s : Sending W) → Counted m s → Counted m (record s { world = w })
  moved w s h = record {
    requests_eq = h.requests_eq;
    retries_eq = h.retries_eq;
    failures_eq = h.failures_eq;
    responses_eq = h.responses_eq;
    answered_le = h.answered_le;
    within = h.within;
  }

  prepared-Counts :
      (n attempts : ℕ) (p : Result Input × W) (s : Sending W)
      → Counted m s
      → s.attempt ≡ n
      → s.fetches < n
      → Counts m n (prepared client attempts p s)
  prepared-Counts n attempts (throw e, w) s h a l = (moved w s h, a)
  prepared-Counts n attempts (ok input, w) s h a l =
      guarded-Counts n attempts (client.caller_abort w) (client.attempt_abort w) input
        (record s { world = w }) (moved w s h) a l

  run_attempt-Counts :
      (attempts : ℕ) (s : Sending W)
      → Counted m s
      → Counts m (s.attempt + 1) (run_attempt client attempts s)
  unfolding run_attempt
  run_attempt-Counts attempts s h =
      prepared-Counts (s.attempt + 1) attempts (prepare client s.world) _
        (record {
          requests_eq = h.requests_eq;
          retries_eq = h.retries_eq;
          failures_eq = h.failures_eq;
          responses_eq = h.responses_eq;
          answered_le = h.answered_le;
          within = let l = h.within in omega arith;
        })
        refl (let l = h.within in omega arith)

  spare : (attempt n k : ℕ) → attempt ≡ n + 1 → attempt ≤ n + suc k
  spare attempt n k e = omega arith

  settled :
      (n k : ℕ) {p : Outcome × Sending W} {o : Outcome} {t : Sending W}
      → p ≡ (o, t)
      → Counts m (n + 1) p
      → Counted m t × (t.attempt ≤ n + suc k)
  settled n k {p} {o} {t} e h =
      let c : Counts m (n + 1) (o, t) = subst (λ q. Counts m (n + 1) q) e h in
      (c.0, spare t.attempt n k c.1)

  Retried-Counted :
      (attempts : ℕ) {n : ℕ} {s t : Sending W} {o : Outcome}
      → Retried (run_attempt client attempts) n s o t
      → Counted m s
      → Counted m t × (t.attempt ≤ s.attempt + n)
  Retried-Counted attempts (done {n = k} {s = s} {t = t} e) h =
      settled s.attempt k e (run_attempt-Counts attempts s h)
  Retried-Counted attempts (refused {n = k} {s = s} {t = t} e r) h =
      settled s.attempt k e (run_attempt-Counts attempts s h)
  Retried-Counted attempts (spent {s = s} {t = t} e r) h =
      settled s.attempt 0 e (run_attempt-Counts attempts s h)
  Retried-Counted attempts (canceled {s = s} reason w) h = (moved w s h, omega arith)
  Retried-Counted attempts (again {n = k} {s = s} {t = t} {e = failure} w e r rest) h =
      let c : Counts m (s.attempt + 1) (raised failure, t) =
        subst (λ p. Counts m (s.attempt + 1) p) e (run_attempt-Counts attempts s h) in
      let d = Retried-Counted attempts rest (moved w t c.0) in
      (d.0, (let l = d.1 in let q = c.1 in omega arith))

abbrev is_raised : Outcome → Bool
is_raised (returned r) = false
is_raised (raised e) = true

-- The counters of a whole request.
pub record Accounts {W : Type 0} (m : RequestMetrics) (attempts : ℕ) (p : Outcome × Sending W)
    : Type 0 where
  pub requests_eq : p.1.metrics.requests ≡ m.requests + p.1.fetches
  pub retries_eq : p.1.metrics.retries ≡ m.retries + (p.1.fetches - 1)
  pub failures_eq : p.1.metrics.failures ≡ m.failures + (if is_raised p.0 then 1 else 0)
  pub responses_eq : p.1.metrics.responses ≡ m.responses + p.1.answered
  pub answered_le : p.1.answered ≤ p.1.fetches
  pub fetches_le : p.1.fetches ≤ attempts

module _ {W Input : Type 0} (client : Client W Input) (m : RequestMetrics) where
  end_request-Accounts :
      (attempts : ℕ) (p : Outcome × Sending W)
      → Counted m p.1
      → p.1.attempt ≤ attempts
      → Accounts m attempts (end_request client p)
  unfolding count_failure
  end_request-Accounts attempts (returned r, s) h l = record {
    requests_eq = h.requests_eq;
    retries_eq = h.retries_eq;
    failures_eq = let e = h.failures_eq in omega arith;
    responses_eq = h.responses_eq;
    answered_le = h.answered_le;
    fetches_le = let q = h.within in omega arith;
  }
  end_request-Accounts attempts (raised e, s) h l = record {
    requests_eq = h.requests_eq;
    retries_eq = h.retries_eq;
    failures_eq = let q = h.failures_eq in omega arith;
    responses_eq = h.responses_eq;
    answered_le = h.answered_le;
    fetches_le = let q = h.within in omega arith;
  }

  initial-Counted : (w : W) → Counted m (initial client w m)
  initial-Counted w = record {
    requests_eq = omega arith;
    retries_eq = omega arith;
    failures_eq = refl;
    responses_eq = omega arith;
    answered_le = omega arith;
    within = omega arith;
  }

  module _ (retry : ℕ → Sender W → Sender W) (documented : Documented retry) where
    either-Accounts :
        (attempts : ℕ) (single : Bool) (p q : Outcome × Sending W)
        → (single ≡ true → Accounts m attempts (end_request client p))
        → (single ≡ false → Accounts m attempts (end_request client q))
        → Accounts m attempts (end_request client (if single then p else q))
    either-Accounts attempts true p q h k = h refl
    either-Accounts attempts false p q h k = k refl

    send_attempts-Accounts :
        (n : ℕ) (w : W)
        → Accounts m (suc n) (send_attempts client retry (suc n) (initial client w m))
    unfolding send_attempts
    send_attempts-Accounts n w =
        either-Accounts (suc n) (suc n == 1) _ _
          (λ e.
            let c = run_attempt-Counts client m (suc n) (initial client w m) (initial-Counted w) in
            end_request-Accounts (suc n) (run_attempt client (suc n) (initial client w m)) c.0
              (let q = c.1 in omega arith))
          (λ e.
            let c =
              Retried-Counted client m (suc n)
                (documented n (run_attempt client (suc n)) (initial client w m))
                (initial-Counted w) in
            end_request-Accounts (suc n) _ c.0 (let q = c.1 in omega arith))

    attempts-Accounts :
        (replayable : Bool) (policy : ResolvedPolicy) (w : W)
        → Accounts m (get_attempts client replayable policy) (
            send_attempts client retry (get_attempts client replayable policy) (initial client w m))
    unfolding get_attempts
    attempts-Accounts true policy w = send_attempts-Accounts policy.retries w
    attempts-Accounts false policy w = send_attempts-Accounts 0 w

    -- A request under a policy that is accepted makes at most one call of `fetch` where its body cannot be
    -- sent again, and at most one more than the policy's retries otherwise. Its counters grow so:
    -- `requests` by the calls, `retries` by the calls after the first, `responses` by the calls that
    -- returned a response, and `failures` by one exactly where an error is thrown.
    pub send_request-Accounts :
        (policy : RequestPolicy) (resolved : ResolvedPolicy) (replayable : Bool) (w : W)
        → get_request_policy policy ≡ ok resolved
        → Accounts m
            (if replayable then suc resolved.retries else 1)
            (send_request client retry policy replayable w m)
    unfolding send_request get_attempts
    send_request-Accounts policy resolved replayable w e =
        subst
          (λ r.
            Accounts m (if replayable then suc resolved.retries else 1)
              (send_resolved client retry replayable r (initial client w m)))
          (sym e) (attempts-Accounts replayable resolved w)
