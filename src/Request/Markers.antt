-- ===== src/Request/Markers.antt =====
-- Which errors and which responses a request may end with.
use opfs.Prelude.{
  ℕ, suc, ◌+◌, ◌≤◌, ◌<◌, ◌≡◌, refl, ap, subst, sym, Option, none, some, Bool, true, false, ◌&&◌,
  ◌⊎◌, inl, inr, Bool-cases, ltb, ◌==◌, arith, if◌then◌else◌,
}
use opfs.Failure.{Result, ok, throw, Thrown}
use opfs.Request.{
  Response, Raised, retry_response, transport_failed, retries_exhausted, plain_error, Outcome,
  returned, raised, RequestMetrics, RequestPolicy, ResolvedPolicy, get_request_policy, Client,
  Sending, Sender, unwrap, answer, received, guarded, prepare, prepared, run_attempt, end_request,
  initial, get_attempts, send_attempts, send_resolved, send_request, is_retry_status, is_retriable,
  Retried, done, refused, spent, canceled, again, Documented, outer_error, inner_error,
}

-- What the attempt number `n` may end with.
abbrev Sound : ℕ → ℕ → Outcome → Type 0
Sound attempts n (returned r) = is_retry_status r.status ≡ true → attempts ≤ n
Sound attempts n (raised (retry_response r)) = n < attempts
Sound attempts n (raised (transport_failed e)) = Unit
Sound attempts n (raised (retries_exhausted e)) = ⊥
Sound attempts n (raised (plain_error e)) = Unit

abbrev SoundAt : {W : Type 0} → ℕ → ℕ → Outcome × Sending W → Type 0
SoundAt attempts n p = Sound attempts n p.0 × (p.1.attempt ≡ n)

module _ {W Input : Type 0} (client : Client W Input) (attempts n : ℕ) where
  outer-Sound :
      (caller scoped : Option Thrown) (e : Raised)
      → Sound attempts n (raised e)
      → Sound attempts n (raised (outer_error client caller scoped e))
  outer-Sound (some reason) scoped e h = h
  outer-Sound none scoped (retry_response r) h = h
  outer-Sound none scoped (transport_failed e) h = h
  outer-Sound none none (plain_error e) h = tt
  outer-Sound none (some reason) (plain_error e) h = tt
  outer-Sound none none (retries_exhausted e) h = h
  outer-Sound none (some reason) (retries_exhausted e) h = tt

  inner-Sound :
      (caller scoped : Option Thrown) (e : Thrown)
      → Sound attempts n (raised (inner_error client caller scoped e))
  inner-Sound (some reason) scoped e = tt
  inner-Sound none scoped e = tt

  last_response : (early retry : Bool) → (early && retry) ≡ false → retry ≡ true → early ≡ false
  last_response early retry h k = ground arith

  early_attempt : (early retry : Bool) → (early && retry) ≡ true → early ≡ true
  early_attempt early retry h = ground arith

  answer-Sound :
      (retry : Bool) (r : Response) (s : Sending W)
      → s.attempt ≡ n
      → (ltb n attempts && is_retry_status r.status) ≡ retry
      → SoundAt attempts n (answer client retry r s)
  answer-Sound true r s e h = (
    outer-Sound (client.caller_abort s.world) (client.attempt_abort s.world) (retry_response r)
        (let q = early_attempt (ltb n attempts) (is_retry_status r.status) h in ground arith),
    e,
  )
  answer-Sound false r s e h = (
    λ again_status.
        let q = last_response (ltb n attempts) (is_retry_status r.status) h again_status in
        ground arith,
    e,
  )

  received-Sound :
      (begun : Option ℕ) (p : Result Response × W) (s : Sending W)
      → s.attempt ≡ n
      → SoundAt attempts n (received client attempts begun p s)
  received-Sound begun (ok r, w) s e =
      answer-Sound (ltb s.attempt attempts && is_retry_status r.status) r _ e
        (ap (λ a. ltb a attempts && is_retry_status r.status) (sym e))
  received-Sound begun (throw x, w) s e = (
    outer-Sound _ _ (inner_error client (client.caller_abort w) (client.attempt_abort w) x)
        (inner-Sound (client.caller_abort w) (client.attempt_abort w) x),
    e,
  )

  guarded-Sound :
      (caller scoped : Option Thrown) (input : Input) (s : Sending W)
      → s.attempt ≡ n
      → SoundAt attempts n (guarded client attempts caller scoped input s)
  guarded-Sound (some reason) scoped input s e = (
    outer-Sound (client.caller_abort s.world) (client.attempt_abort s.world) (plain_error reason)
        tt,
    e,
  )
  guarded-Sound none (some reason) input s e = (
    outer-Sound (client.caller_abort s.world) (client.attempt_abort s.world) (plain_error reason)
        tt,
    e,
  )
  guarded-Sound none none input s e = received-Sound _ (client.fetch input s.world) _ e

  prepared-Sound :
      (p : Result Input × W) (s : Sending W)
      → s.attempt ≡ n
      → SoundAt attempts n (prepared client attempts p s)
  prepared-Sound (throw x, w) s e =
      (outer-Sound (client.caller_abort w) (client.attempt_abort w) (plain_error x) tt, e)
  prepared-Sound (ok input, w) s e =
      guarded-Sound (client.caller_abort w) (client.attempt_abort w) input (record s { world = w })
        e

module _ {W Input : Type 0} (client : Client W Input) (attempts : ℕ) where
  run_attempt-Sound :
      (s : Sending W) → SoundAt attempts (s.attempt + 1) (run_attempt client attempts s)
  unfolding run_attempt
  run_attempt-Sound s =
      prepared-Sound client attempts (s.attempt + 1) (prepare client s.world) _ refl

  -- What the retry loop may end with.
  abbrev Final : Outcome → Sending W → Type 0
  Final (returned r) t = is_retry_status r.status ≡ true → attempts ≤ t.attempt
  Final (raised (plain_error e)) t = Unit
  Final (raised (retries_exhausted (transport_failed e))) t = Unit
  Final (raised e) t = ⊥

  ran :
      (s : Sending W) {t : Sending W} {o : Outcome}
      → run_attempt client attempts s ≡ (o, t)
      → SoundAt attempts (s.attempt + 1) (o, t)
  ran s {t} {o} e = subst (λ p. SoundAt attempts (s.attempt + 1) p) e (run_attempt-Sound s)

  refused-Final :
      (n : ℕ) (e : Raised) (t : Sending W)
      → Sound attempts n (raised e)
      → is_retriable e ≡ false
      → Final (raised e) t
  unfolding is_retriable
  refused-Final n (retry_response r) t h f = cc
  refused-Final n (transport_failed x) t h f = cc
  refused-Final n (retries_exhausted x) t h f = absurd h
  refused-Final n (plain_error x) t h f = tt

  spent-Final :
      (e : Raised) (t : Sending W)
      → Sound attempts attempts (raised e)
      → is_retriable e ≡ true
      → Final (raised (retries_exhausted e)) t
  unfolding is_retriable
  spent-Final (retry_response r) t h f = absurd (omega (arith, h))
  spent-Final (transport_failed x) t h f = tt
  spent-Final (retries_exhausted x) t h f = absurd h
  spent-Final (plain_error x) t h f = cc

  Retried-Final :
      {n : ℕ} {s t : Sending W} {o : Outcome}
      → Retried (run_attempt client attempts) n s o t
      → s.attempt + n ≡ attempts
      → Final o t
  Retried-Final (done {s = s} {t = t} e) h =
      λ status. let q = (ran s e).0 status in let a = (ran s e).1 in omega arith
  Retried-Final (refused {s = s} {t = t} {e = failure} e r) h =
      refused-Final (s.attempt + 1) failure t (ran s e).0 r
  Retried-Final (spent {s = s} {t = t} {e = failure} e r) h =
      spent-Final failure t (subst (λ k. Sound attempts k (raised failure)) h (ran s e).0) r
  Retried-Final (canceled reason w) h = tt
  Retried-Final (again {n = k} {s = s} {t = t} {e = failure} w e r rest) h =
      Retried-Final rest (let a : t.attempt ≡ s.attempt + 1 = (ran s e).1 in omega arith)

  -- What a whole request may end with.
  abbrev pub Answers : Outcome × Sending W → Type 0
  Answers (returned r, t) = (is_retry_status r.status ≡ false) ⊎ (attempts ≤ t.attempt)
  Answers (raised (plain_error e), t) = Unit
  Answers (raised e, t) = ⊥

  or_last :
      (r : Response) (t : Sending W)
      → (is_retry_status r.status ≡ true → attempts ≤ t.attempt)
      → Answers (returned r, t)
  or_last r t h = elim (Bool-cases (is_retry_status r.status)) [
    | inl status ↦ inr (h status)
    | inr status ↦ inl status
  ]

  end_request-Answers :
      (o : Outcome) (t : Sending W) → Final o t → Answers (end_request client (o, t))
  unfolding unwrap
  end_request-Answers (returned r) t h = or_last r t h
  end_request-Answers (raised (plain_error e)) t h = tt
  end_request-Answers (raised (retries_exhausted (transport_failed e))) t h = tt
  end_request-Answers (raised (retries_exhausted (plain_error e))) t h = absurd h
  end_request-Answers (raised (retries_exhausted (retry_response e))) t h = absurd h
  end_request-Answers (raised (retries_exhausted (retries_exhausted e))) t h = absurd h
  end_request-Answers (raised (transport_failed e)) t h = absurd h
  end_request-Answers (raised (retry_response e)) t h = absurd h

  -- The only attempt of a request that is not repeated.
  single-Answers :
      (o : Outcome) (t : Sending W)
      → attempts ≡ 1
      → SoundAt attempts 1 (o, t)
      → Answers (end_request client (o, t))
  unfolding unwrap
  single-Answers (returned r) t e h =
      or_last r t λ status. let q = h.0 status in let a = h.1 in omega arith
  single-Answers (raised (plain_error x)) t e h = tt
  single-Answers (raised (transport_failed x)) t e h = tt
  single-Answers (raised (retry_response r)) t e h = absurd (let q = h.0 in omega arith)
  single-Answers (raised (retries_exhausted x)) t e h = absurd h.0

  either-Answers :
      (single : Bool) (p q : Outcome × Sending W)
      → (single ≡ true → Answers (end_request client p))
      → (single ≡ false → Answers (end_request client q))
      → Answers (end_request client (if single then p else q))
  either-Answers true p q h k = h refl
  either-Answers false p q h k = k refl

module _ {W Input : Type 0} (client : Client W Input) (m : RequestMetrics)
    (retry : ℕ → Sender W → Sender W) (documented : Documented retry) where
  send_attempts-Answers :
      (n : ℕ) (w : W)
      → Answers client (suc n) (send_attempts client retry (suc n) (initial client w m))
  unfolding send_attempts
  send_attempts-Answers n w =
      either-Answers client (suc n) (suc n == 1) _ _
        (λ e.
          single-Answers client (suc n) (run_attempt client (suc n) (initial client w m)).0 _
            (ground arith) (run_attempt-Sound client (suc n) (initial client w m)))
        (λ e. end_request-Answers client (suc n) _ _ (
          Retried-Final client (suc n)
            (documented n (run_attempt client (suc n)) (initial client w m)) (omega arith)))

  attempts-Answers :
      (replayable : Bool) (policy : ResolvedPolicy) (w : W)
      → Answers client
          (if replayable then suc policy.retries else 1)
          (send_attempts client retry (get_attempts client replayable policy) (initial client w m))
  unfolding get_attempts
  attempts-Answers true policy w = send_attempts-Answers policy.retries w
  attempts-Answers false policy w = send_attempts-Answers 0 w

  -- What a request under an accepted policy ends with: no internal marker of a retry and no error of
  -- the retry library is ever thrown to the caller, only an error of the caller's own callbacks or the
  -- reason of an abort; and a response with a status that is worth a retry is
  -- returned only by the last of the attempts.
  pub send_request-Answers :
      (policy : RequestPolicy) (resolved : ResolvedPolicy) (replayable : Bool) (w : W)
      → get_request_policy policy ≡ ok resolved
      → Answers client
          (if replayable then suc resolved.retries else 1)
          (send_request client retry policy replayable w m)
  unfolding send_request
  send_request-Answers policy resolved replayable w e =
      subst
        (λ r.
          Answers client (if replayable then suc resolved.retries else 1)
            (send_resolved client retry replayable r (initial client w m)))
        (sym e) (attempts-Answers replayable resolved w)
