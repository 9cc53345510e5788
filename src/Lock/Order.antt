-- ===== src/Lock/Order.antt =====
-- Requests are granted in the order of their arrival.
use mathlib.Core.List.{map-append}
use opfs.Prelude.{
  ℕ, zero, suc, ◌≡◌, refl, ap, ◌∙◌, sym, subst, none, some, Bool, true, false, List, [], ◌∷◌, ◌++◌,
  ◌==◌, get_elem?, set, map, append-nil, append_assoc, arith, if◌then◌else◌, Option-cases, inl, inr,
}
use opfs.Lock.Drain.{
  drain_induction, release-cases, cancel_pending-cases, enqueue_pending-cases, queue-grant,
}
use opfs.Lock.{
  Lock, LockMode, LocalHeldLock, PendingLock, Call, vacate, vacated, unqueued, token_of, with_queue,
  grant, drain, enqueue_pending, release, without, cancel_pending, acquire, acquires, releases,
  cancels, step,
}

abbrev pub token_requests : List LocalHeldLock → List ℕ
token_requests = map λ t. t.request

abbrev pub queue_requests : List PendingLock → List ℕ
queue_requests = map λ p. p.request

-- The requests that were granted, in the order of their grants, and then those that wait.
abbrev pub order : Lock → List ℕ
order l = token_requests l.tokens ++ queue_requests l.queue

tokens-grant : (l : Lock) (p : PendingLock) → (grant l p).tokens ≡ l.tokens ++ token_of p ∷ []
unfolding grant
tokens-grant l p = refl

order-grant :
    (l : Lock) (p : PendingLock) (rest : List PendingLock)
    → order (grant (with_queue l rest) p)
      ≡ token_requests l.tokens ++ p.request ∷ queue_requests rest
order-grant l p rest =
    rw (queue-grant (with_queue l rest) p, tokens-grant (with_queue l rest) p, map-append)
      (append_assoc (token_requests l.tokens) (p.request ∷ []) (queue_requests rest))

order-drain : (l : Lock) → order (drain l) ≡ order l
order-drain l =
    drain_induction (λ k. order k ≡ order l)
      (λ k p rest e _ h.
        order-grant k p rest
        ∙ subst (λ q. token_requests k.tokens ++ queue_requests q ≡ order l) e h)
      l refl

requests-set :
    (ts : List LocalHeldLock) (i : ℕ) (t : LocalHeldLock)
    → get_elem? ts i ≡ some t
    → token_requests (set ts i (record t { released = true })) ≡ token_requests ts
requests-set [] i t e = refl
requests-set (u ∷ ts) zero t e = cc
requests-set (u ∷ ts) (suc i) t e = ap (◌∷◌ u.request) (requests-set ts i t e)

queue-vacate : (l : Lock) (i : ℕ) (t : LocalHeldLock) → (vacated l i t).queue ≡ l.queue
unfolding vacate
queue-vacate l i t = ground arith

order-vacated :
    (l : Lock) (i : ℕ) (t : LocalHeldLock)
    → get_elem? l.tokens i ≡ some t
    → order (vacated l i t) ≡ order l
order-vacated l i t e = rw (queue-vacate l i t, requests-set l.tokens i t e) refl

order-release : (l : Lock) (i : ℕ) → order (release l i) ≡ order l
order-release l i = elim (release-cases l i) [
  | inl same ↦ ap order same
  | inr (t, e, _, drained) ↦ ap order drained ∙ order-drain (vacated l i t) ∙ order-vacated l i t e
]

order-grant_at_once :
    (l : Lock) (p : PendingLock) → l.queue ≡ [] → order (grant l p) ≡ order l ++ p.request ∷ []
order-grant_at_once l p empty =
    rw (queue-grant l p, tokens-grant l p, map-append)
      (ground (
        arith,
        append-nil (token_requests l.tokens ++ p.request ∷ []),
        append-nil (token_requests l.tokens),
      ))

order-enqueue_pending :
    (l : Lock) (p : PendingLock) → order (enqueue_pending l p) ≡ order l ++ p.request ∷ []
order-enqueue_pending l p = elim (enqueue_pending-cases l p) [
  | inl (empty, granted) ↦ ap order granted ∙ order-grant_at_once l p empty
  | inr (_, queued) ↦
      ap order queued
      ∙ rw map-append
          (sym (append_assoc (token_requests l.tokens) (queue_requests l.queue) (p.request ∷ [])))
]

-- A request that is among the waiting ones is struck out once.
abbrev pub remove_first : ℕ → List ℕ → List ℕ
remove_first r [] = []
remove_first r (x ∷ xs) = if x == r then xs else x ∷ remove_first r xs

without-some :
    (r : ℕ) (q rest : List PendingLock)
    → without r q ≡ some rest
    → queue_requests rest ≡ remove_first r (queue_requests q)
unfolding without
without-some r [] rest e = cc
without-some r (p ∷ q) rest e = elim (Option-cases (without r q)) [
  | inl missing ↦ ground (arith, missing)
  | inr (found, at) ↦ ground (arith, at, without-some r q found at)
]

without-none :
    (r : ℕ) (q : List PendingLock)
    → without r q ≡ none
    → queue_requests q ≡ remove_first r (queue_requests q)
unfolding without
without-none r [] e = refl
without-none r (p ∷ q) e = ground (arith, without-none r q)

-- The effect of a call on the order: a new request goes to the end, a release changes nothing, and
-- a cancellation takes a waiting request out.
abbrev pub order_after : Lock → Call → List ℕ
order_after l (acquires r mode true) = order l
order_after l (acquires r mode false) = order l ++ r ∷ []
order_after l (releases i) = order l
order_after l (cancels r) = token_requests l.tokens ++ remove_first r (queue_requests l.queue)

order-acquire :
    (l : Lock) (r : ℕ) (mode : LockMode) (aborted : Bool)
    → order (acquire l r mode aborted) ≡ order_after l (acquires r mode aborted)
unfolding acquire
order-acquire l r mode true = refl
order-acquire l r mode false = order-enqueue_pending l (record { request = r; mode = mode })

order-cancel_pending : (l : Lock) (r : ℕ) → order (cancel_pending l r) ≡ order_after l (cancels r)
order-cancel_pending l r = elim (cancel_pending-cases l r) [
  | inl (missing, same) ↦
      ap order same ∙ ap (λ q. token_requests l.tokens ++ q) (without-none r l.queue missing)
  | inr (rest, found, drained) ↦
      ap order drained
      ∙ order-drain (unqueued l r rest)
      ∙ ap (λ q. token_requests l.tokens ++ q) (without-some r l.queue rest found)
]

-- First come, first served. Read as one line, the granted requests in the order of their grants and
-- then the waiting ones, a new request goes to the end, no release and no grant changes the order,
-- an aborted acquisition leaves it alone, and a cancellation strikes out only a waiting request.
pub order-step : (l : Lock) (c : Call) → order (step l c) ≡ order_after l c
unfolding step
order-step l (acquires r mode aborted) = order-acquire l r mode aborted
order-step l (releases i) = order-release l i
order-step l (cancels r) = order-cancel_pending l r
