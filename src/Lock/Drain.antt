-- ===== src/Lock/Drain.antt =====
-- What `drain` and `release` do, as steps: `drain` grants the head of the queue while it can.
use opfs.Prelude.{
  ℕ, ◌≡◌, refl, none, some, true, false, List, [], ◌∷◌, ◌++◌, get_elem?, arith, Bool-cases,
  Option-cases, inl, inr, ◌⊎◌, subst, sym,
}
use opfs.Lock.{
  Lock, LockMode, LocalHeldLock, PendingLock, shared, exclusive, can_grant, vacated, unqueued,
  occupy, with_queue, grant, drain_shared, drain_queue, drain, enqueue_pending, release_token,
  release, without, cancel_pending,
}

pub LockMode-cases : (m : LockMode) → (m ≡ shared) ⊎ (m ≡ exclusive)
LockMode-cases shared = inl refl
LockMode-cases exclusive = inr refl

pub queue-grant : (l : Lock) (p : PendingLock) → (grant l p).queue ≡ l.queue
unfolding grant occupy
queue-grant l p = ground arith

drain_shared-cases :
    (l : Lock) (p : PendingLock) (rest : List PendingLock)
    → (drain_shared l (p ∷ rest) ≡ l)
      ⊎ ((can_grant l.state p.mode ≡ true)
          × (drain_shared l (p ∷ rest) ≡ drain_shared (grant (with_queue l rest) p) rest))
unfolding drain_shared can_grant
drain_shared-cases l p rest = ground arith

drain_queue-cases :
    (l : Lock) (p : PendingLock) (rest : List PendingLock)
    → l.writer ≡ false
    → (drain_queue l (p ∷ rest) ≡ l)
      ⊎ (drain_queue l (p ∷ rest) ≡ drain_shared l (p ∷ rest))
      ⊎ ((can_grant l.state p.mode ≡ true)
          × (drain_queue l (p ∷ rest) ≡ grant (with_queue l rest) p))
unfolding drain_queue can_grant
drain_queue-cases l p rest w = ground arith

drain-cases : (l : Lock) → (drain l ≡ l) ⊎ ((l.writer ≡ false) × (drain l ≡ drain_queue l l.queue))
unfolding drain
drain-cases l = ground arith

-- A release either does nothing or gives the occupancy of a live token back, and drains.
pub release-cases :
    (l : Lock) (i : ℕ)
    → (release l i ≡ l)
      ⊎ ((t : LocalHeldLock) × (get_elem? l.tokens i ≡ some t)
          × (t.released ≡ false)
          × (release l i ≡ drain (vacated l i t)))
unfolding release release_token
release-cases l i = elim (Option-cases (get_elem? l.tokens i)) [
  | inl e ↦ inl (rw (e, release_token) refl)
  | inr (t, e) ↦ elim (Bool-cases t.released) [
    | inl old ↦ inl (ground (arith, e))
    | inr live ↦ inr (t, e, live, ground (arith, e))
  ]
]

-- A cancellation either finds no request, or takes it out of the queue, and drains.
pub cancel_pending-cases :
    (l : Lock) (r : ℕ)
    → ((without r l.queue ≡ none) × (cancel_pending l r ≡ l))
      ⊎ ((q : List PendingLock) × (without r l.queue ≡ some q)
          × (cancel_pending l r ≡ drain (unqueued l r q)))
unfolding cancel_pending
cancel_pending-cases l r = elim (Option-cases (without r l.queue)) [
  | inl e ↦ inl (e, ground (arith, e))
  | inr (q, e) ↦ inr (q, e, ground (arith, e))
]

-- A request is granted at once on a free lock with no queue, and else goes to the end of the queue.
pub enqueue_pending-cases :
    (l : Lock) (p : PendingLock)
    → ((l.queue ≡ []) × (enqueue_pending l p ≡ grant l p))
      ⊎ (((l.queue ≡ []) → can_grant l.state p.mode ≡ false)
          × (enqueue_pending l p ≡ with_queue l (l.queue ++ p ∷ [])))
unfolding enqueue_pending
enqueue_pending-cases l p = ground arith

-- A property that each grant of a free head keeps is kept by `drain`.
module _ {ℓ} (P : Lock → Type ℓ)
    (keep : (l : Lock) (p : PendingLock) (rest : List PendingLock)
      → l.queue ≡ p ∷ rest
      → can_grant l.state p.mode ≡ true
      → P l
      → P (grant (with_queue l rest) p)) where
  drain_shared_induction :
      (l : Lock) (q : List PendingLock) → l.queue ≡ q → P l → P (drain_shared l q)
  drain_shared_induction l [] e h = unfold drain_shared in h
  drain_shared_induction l (p ∷ rest) e h = elim (drain_shared-cases l p rest) [
    | inl same ↦ subst P (sym same) h
    | inr (free, taken) ↦ subst P (sym taken) (
        drain_shared_induction (grant (with_queue l rest) p) rest
          (queue-grant (with_queue l rest) p) (keep l p rest e free h))
  ]

  drain_queue_induction :
      (l : Lock) (q : List PendingLock) → l.queue ≡ q → l.writer ≡ false → P l → P (drain_queue l q)
  drain_queue_induction l [] e w h = unfold drain_queue in h
  drain_queue_induction l (p ∷ rest) e w h = elim (drain_queue-cases l p rest w) [
    | inl same ↦ subst P (sym same) h
    | inr (inl loop) ↦ subst P (sym loop) (drain_shared_induction l (p ∷ rest) e h)
    | inr (inr (free, taken)) ↦ subst P (sym taken) (keep l p rest e free h)
  ]

  pub drain_induction : (l : Lock) → P l → P (drain l)
  drain_induction l h = elim (drain-cases l) [
    | inl same ↦ subst P (sym same) h
    | inr (w, e) ↦ subst P (sym e) (drain_queue_induction l l.queue refl w h)
  ]
