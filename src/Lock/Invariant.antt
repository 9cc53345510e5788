-- ===== src/Lock/Invariant.antt =====
-- Mutual exclusion and no lost wake-ups, after any history of calls.
use opfs.Prelude.{
  ℕ, zero, suc, ◌+◌, ◌≤◌, ◌≡◌, some, Bool, true, false, not, ◌&&◌, List, [], ◌∷◌, ◌++◌, get_elem?,
  set, if◌then◌else◌, arith, inl, inr, ◌⊎◌, subst, sym,
}
use opfs.Lock.Drain.{drain_induction, release-cases, cancel_pending-cases}
use opfs.Lock.{
  Lock, LockMode, LocalHeldLock, PendingLock, Call, shared, exclusive, new_lock, can_grant, occupy,
  vacate, vacated, unqueued, token_of, with_queue, grant, drain, enqueue_pending, release,
  cancel_pending, acquire, acquires, releases, cancels, step, run,
}

abbrev is_mode : LockMode → LockMode → Bool
is_mode shared shared = true
is_mode exclusive exclusive = true
is_mode shared exclusive = false
is_mode exclusive shared = false

abbrev counts : LockMode → LocalHeldLock → ℕ
counts m t = if not t.released && is_mode m t.mode then 1 else 0

-- How many tokens of a mode are not released.
unfoldable pub held : LockMode → List LocalHeldLock → ℕ
held m [] = 0
held m (t ∷ ts) = counts m t + held m ts

held-append :
    (m : LockMode) (ts : List LocalHeldLock) (t : LocalHeldLock)
    → held m (ts ++ t ∷ []) ≡ held m ts + counts m t
unfolding held
held-append m [] t = omega arith
held-append m (u ∷ ts) t = omega (arith, held-append m ts t)

held-set :
    (m : LockMode) (ts : List LocalHeldLock) (i : ℕ) (t : LocalHeldLock)
    → get_elem? ts i ≡ some t
    → held m (set ts i (record t { released = true })) + counts m t ≡ held m ts
unfolding held
held-set m [] i t e = cc
held-set m (u ∷ ts) zero t e = ground arith
held-set m (u ∷ ts) (suc i) t e = omega (arith, held-set m ts i t e)

-- The counters of the state agree with the tokens: `readers` shared ones, and with a writer one
-- exclusive one and no reader.
pub record IsExclusive (l : Lock) : Type 0 where
  pub readers_eq : l.readers ≡ held shared l.tokens
  pub writer_eq : held exclusive l.tokens ≡ (if l.writer then 1 else 0)
  pub alone : l.writer ≡ true → l.readers ≡ 0

grant-IsExclusive :
    (l : Lock) (p : PendingLock)
    → can_grant l.state p.mode ≡ true
    → IsExclusive l
    → IsExclusive (grant l p)
unfolding grant can_grant occupy
grant-IsExclusive l p e v =
    ground
      (arith, held-append shared l.tokens (token_of p), held-append exclusive l.tokens (token_of p))

with_queue-IsExclusive :
    (l : Lock) (q : List PendingLock) → IsExclusive l → IsExclusive (with_queue l q)
with_queue-IsExclusive l q v = record {
  readers_eq = v.readers_eq;
  writer_eq = v.writer_eq;
  alone = v.alone;
}

drain-IsExclusive : (l : Lock) → IsExclusive l → IsExclusive (drain l)
drain-IsExclusive = drain_induction IsExclusive λ l p rest _ free v.
    grant-IsExclusive (with_queue l rest) p (unfold can_grant in free)
      (with_queue-IsExclusive l rest v)

enqueue_pending-IsExclusive :
    (l : Lock) (p : PendingLock) → IsExclusive l → IsExclusive (enqueue_pending l p)
unfolding enqueue_pending
enqueue_pending-IsExclusive l p v = ground (arith, grant-IsExclusive l p, with_queue-IsExclusive l)

acquire-IsExclusive :
    (l : Lock) (r : ℕ) (mode : LockMode) (aborted : Bool)
    → IsExclusive l
    → IsExclusive (acquire l r mode aborted)
unfolding acquire
acquire-IsExclusive l r mode true v = record {
  readers_eq = v.readers_eq;
  writer_eq = v.writer_eq;
  alone = v.alone;
}
acquire-IsExclusive l r mode false v =
    enqueue_pending-IsExclusive l (record { request = r; mode = mode }) v

vacate-IsExclusive :
    (l : Lock) (i : ℕ) (t : LocalHeldLock)
    → get_elem? l.tokens i ≡ some t
    → t.released ≡ false
    → IsExclusive l
    → IsExclusive (record l {
      state = vacate l.state t.mode;
      tokens = set l.tokens i (record t { released = true });
    })
unfolding vacate
vacate-IsExclusive l i t e live v =
    ground (arith, held-set shared l.tokens i t e, held-set exclusive l.tokens i t e)

release-IsExclusive : (l : Lock) (i : ℕ) → IsExclusive l → IsExclusive (release l i)
release-IsExclusive l i v = elim (release-cases l i) [
  | inl same ↦ subst IsExclusive (sym same) v
  | inr (t, e, live, drained) ↦
      subst IsExclusive (sym drained)
        (drain-IsExclusive (vacated l i t) (vacate-IsExclusive l i t e live v))
]

cancel_pending-IsExclusive : (l : Lock) (r : ℕ) → IsExclusive l → IsExclusive (cancel_pending l r)
cancel_pending-IsExclusive l r v = elim (cancel_pending-cases l r) [
  | inl (_, same) ↦ subst IsExclusive (sym same) v
  | inr (q, _, drained) ↦ subst IsExclusive (sym drained) (
      drain-IsExclusive (unqueued l r q)
        (record { readers_eq = v.readers_eq; writer_eq = v.writer_eq; alone = v.alone }))
]

pub step-IsExclusive : (l : Lock) (c : Call) → IsExclusive l → IsExclusive (step l c)
unfolding step
step-IsExclusive l (acquires r mode aborted) v = acquire-IsExclusive l r mode aborted v
step-IsExclusive l (releases i) v = release-IsExclusive l i v
step-IsExclusive l (cancels r) v = cancel_pending-IsExclusive l r v

pub run-IsExclusive : (l : Lock) (cs : List Call) → IsExclusive l → IsExclusive (run l cs)
unfolding run
run-IsExclusive l [] v = v
run-IsExclusive l (c ∷ cs) v = run-IsExclusive (step l c) cs (step-IsExclusive l c v)

pub new_lock-IsExclusive : IsExclusive new_lock
unfolding held
new_lock-IsExclusive = omega arith

excludes :
    (l : Lock)
    → IsExclusive l
    → (held exclusive l.tokens ≤ 1) × ((held exclusive l.tokens ≡ 0) ⊎ (held shared l.tokens ≡ 0))
excludes l v = ground arith

-- Mutual exclusion: after any history of calls at most one exclusive token is live, and while one
-- is, no shared token is.
pub run_excludes :
    (cs : List Call)
    → (held exclusive (run new_lock cs).tokens ≤ 1)
      × ((held exclusive (run new_lock cs).tokens ≡ 0) ⊎ (held shared (run new_lock cs).tokens ≡ 0))
run_excludes cs = excludes (run new_lock cs) (run-IsExclusive new_lock cs new_lock-IsExclusive)
