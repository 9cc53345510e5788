-- ===== src/Lock/Fairness.antt =====
-- No request is left waiting for a lock that is free.
use opfs.Prelude.{
  ℕ, ◌≡◌, refl, ◌∙◌, sym, subst, Bool, true, false, List, [], ◌∷◌, ◌++◌, ◌==◌, arith, Bool-cases,
  inl, inr, ◌⊎◌,
}
use opfs.Lock.Drain.{release-cases, cancel_pending-cases, enqueue_pending-cases, queue-grant}
use opfs.Lock.Invariant.{IsExclusive, held, run-IsExclusive, new_lock-IsExclusive}
use opfs.Lock.{
  Lock, LockMode, LocalLockState, PendingLock, Call, shared, exclusive, new_lock, can_grant,
  is_empty_state, occupy, vacated, unqueued, with_queue, grant, drain_shared, drain_queue, drain,
  enqueue_pending, acquire, acquires, releases, cancels, step, run,
}

-- The lock cannot be given to the request at the head of the queue.
abbrev pub HeadBlocked : LocalLockState → List PendingLock → Type 0
HeadBlocked s [] = Unit
HeadBlocked s (p ∷ rest) = can_grant s p.mode ≡ false

abbrev pub IsSettled : Lock → Type 0
IsSettled l = HeadBlocked l.state l.queue

IsSettled-of_nil : (l : Lock) → l.queue ≡ [] → IsSettled l
IsSettled-of_nil l e = subst (HeadBlocked l.state) (sym e) tt

IsSettled-of_cons :
    (l : Lock) (p : PendingLock) (rest : List PendingLock)
    → l.queue ≡ p ∷ rest
    → can_grant l.state p.mode ≡ false
    → IsSettled l
IsSettled-of_cons l p rest e h = subst (HeadBlocked l.state) (sym e) h

writer_blocks : (s : LocalLockState) (q : List PendingLock) → s.writer ≡ true → HeadBlocked s q
unfolding can_grant
writer_blocks s [] w = tt
writer_blocks s (p ∷ q) w = ground arith

-- Why the loop of `drain` stops or goes on.
drain_shared-stops :
    (l : Lock) (p : PendingLock) (rest : List PendingLock)
    → (((l.writer ≡ true) ⊎ (p.mode ≡ exclusive)) × (drain_shared l (p ∷ rest) ≡ l))
      ⊎ ((p.mode ≡ shared)
          × (drain_shared l (p ∷ rest) ≡ drain_shared (grant (with_queue l rest) p) rest))
unfolding drain_shared
drain_shared-stops l p rest = ground arith

readers-grant : (l : Lock) (p : PendingLock) → p.mode ≡ shared → ((grant l p).readers == 0) ≡ false
unfolding grant occupy
readers-grant l p m = ground arith

occupied_blocks :
    (s : LocalLockState) (m : LockMode)
    → (s.writer ≡ true) ⊎ (m ≡ exclusive)
    → (s.readers == 0) ≡ false
    → can_grant s m ≡ false
unfolding can_grant
occupied_blocks s m h r = ground arith

-- With a reader inside, the loop stops only where a writer is next.
drain_shared-IsSettled :
    (l : Lock) (q : List PendingLock)
    → l.queue ≡ q
    → (l.readers == 0) ≡ false
    → IsSettled (drain_shared l q)
drain_shared-IsSettled l [] e r = unfold drain_shared in IsSettled-of_nil l e
drain_shared-IsSettled l (p ∷ rest) e r = elim (drain_shared-stops l p rest) [
  | inl (why, same) ↦
      subst IsSettled (sym same)
        (IsSettled-of_cons l p rest e (occupied_blocks l.state p.mode why r))
  | inr (m, taken) ↦ subst IsSettled (sym taken) (
      drain_shared-IsSettled (grant (with_queue l rest) p) rest (queue-grant (with_queue l rest) p)
        (readers-grant (with_queue l rest) p m))
]

drain_queue-stops :
    (l : Lock) (p : PendingLock) (rest : List PendingLock)
    → l.writer ≡ false
    → ((p.mode ≡ exclusive) × ((l.readers == 0) ≡ false) × (drain_queue l (p ∷ rest) ≡ l))
      ⊎ ((grant (with_queue l rest) p).writer ≡ true)
        × (drain_queue l (p ∷ rest) ≡ grant (with_queue l rest) p)
      ⊎ ((p.mode ≡ shared)
          × (drain_queue l (p ∷ rest) ≡ drain_shared (grant (with_queue l rest) p) rest))
unfolding drain_queue drain_shared grant occupy
drain_queue-stops l p rest w = ground arith

drain_queue-IsSettled :
    (l : Lock) (q : List PendingLock) → l.queue ≡ q → l.writer ≡ false → IsSettled (drain_queue l q)
drain_queue-IsSettled l [] e w = unfold drain_queue in IsSettled-of_nil l e
drain_queue-IsSettled l (p ∷ rest) e w = elim (drain_queue-stops l p rest w) [
  | inl (m, r, same) ↦
      subst IsSettled (sym same)
        (IsSettled-of_cons l p rest e (occupied_blocks l.state p.mode (inr m) r))
  | inr (inl (w', granted)) ↦
      subst IsSettled (sym granted)
        (writer_blocks (grant (with_queue l rest) p).state (grant (with_queue l rest) p).queue w')
  | inr (inr (m, loop)) ↦ subst IsSettled (sym loop) (
      drain_shared-IsSettled (grant (with_queue l rest) p) rest (queue-grant (with_queue l rest) p)
        (readers-grant (with_queue l rest) p m))
]

held_back : (l : Lock) → l.writer ≡ true → drain l ≡ l
unfolding drain
held_back l w = ground arith

drained : (l : Lock) → l.writer ≡ false → drain l ≡ drain_queue l l.queue
unfolding drain
drained l w = ground arith

drain-IsSettled : (l : Lock) → IsSettled (drain l)
drain-IsSettled l = elim (Bool-cases l.writer) [
  | inl w ↦ subst IsSettled (sym (held_back l w)) (writer_blocks l.state l.queue w)
  | inr w ↦ subst IsSettled (sym (drained l w)) (drain_queue-IsSettled l l.queue refl w)
]

-- A request behind others does not change who is first.
queued_blocked :
    (s : LocalLockState) (q : List PendingLock) (p : PendingLock)
    → (q ≡ [] → can_grant s p.mode ≡ false)
    → HeadBlocked s q
    → HeadBlocked s (q ++ p ∷ [])
queued_blocked s [] p taken h = taken refl
queued_blocked s (x ∷ q) p taken h = h

enqueue_pending-IsSettled :
    (l : Lock) (p : PendingLock) → IsSettled l → IsSettled (enqueue_pending l p)
unfolding can_grant
enqueue_pending-IsSettled l p h = elim (enqueue_pending-cases l p) [
  | inl (empty, granted) ↦
      subst IsSettled (sym granted) (IsSettled-of_nil (grant l p) (queue-grant l p ∙ empty))
  | inr (taken, queued) ↦ subst IsSettled (sym queued) (queued_blocked l.state l.queue p taken h)
]

acquire-IsSettled :
    (l : Lock) (r : ℕ) (mode : LockMode) (aborted : Bool)
    → IsSettled l
    → IsSettled (acquire l r mode aborted)
unfolding acquire
acquire-IsSettled l r mode true h = h
acquire-IsSettled l r mode false h =
    enqueue_pending-IsSettled l (record { request = r; mode = mode }) h

pub step-IsSettled : (l : Lock) (c : Call) → IsSettled l → IsSettled (step l c)
unfolding step
step-IsSettled l (acquires r mode aborted) h = acquire-IsSettled l r mode aborted h
step-IsSettled l (releases i) h = elim (release-cases l i) [
  | inl same ↦ subst IsSettled (sym same) h
  | inr (t, _, _, e) ↦ subst IsSettled (sym e) (drain-IsSettled (vacated l i t))
]
step-IsSettled l (cancels r) h = elim (cancel_pending-cases l r) [
  | inl (_, same) ↦ subst IsSettled (sym same) h
  | inr (q, _, e) ↦ subst IsSettled (sym e) (drain-IsSettled (unqueued l r q))
]

run-IsSettled : (l : Lock) (cs : List Call) → IsSettled l → IsSettled (run l cs)
unfolding run
run-IsSettled l [] h = h
run-IsSettled l (c ∷ cs) h = run-IsSettled (step l c) cs (step-IsSettled l c h)

-- No lost wake-up: after any history of calls, a request that waits at the head of the queue could
-- not be granted in the state that the calls left.
pub run-new_lock-IsSettled : (cs : List Call) → IsSettled (run new_lock cs)
run-new_lock-IsSettled cs = run-IsSettled new_lock cs tt

-- On a free lock the head of a queue would not be blocked.
idle_queue :
    (s : LocalLockState) (q : List PendingLock)
    → s.writer ≡ false
    → s.readers ≡ 0
    → HeadBlocked s q
    → q ≡ []
unfolding can_grant
idle_queue s [] w r h = refl
idle_queue s (p ∷ q) w r h = absurd (ground arith)

idle :
    (l : Lock)
    → IsExclusive l
    → IsSettled l
    → held shared l.tokens ≡ 0
    → held exclusive l.tokens ≡ 0
    → is_empty_state l.state ≡ true
unfolding is_empty_state
idle l v h s x =
    ground (arith, idle_queue l.state l.queue (ground arith) (omega (arith, v.readers_eq)) h)

-- When every token is released, nobody waits and the state is the one that `removeEmptyState` takes
-- out of the registry.
pub run_releases_all :
    (cs : List Call)
    → held shared (run new_lock cs).tokens ≡ 0
    → held exclusive (run new_lock cs).tokens ≡ 0
    → is_empty_state (run new_lock cs).state ≡ true
run_releases_all cs =
    idle (run new_lock cs) (run-IsExclusive new_lock cs new_lock-IsExclusive)
      (run-new_lock-IsSettled cs)
