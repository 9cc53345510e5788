-- ===== src/Lock/Tests.antt =====
-- Runs of the lock.
use opfs.Prelude.{ℕ, ◌≡◌, ◌≤◌, ◌⊎◌, refl, true, false, List, [], ◌∷◌, map}
use opfs.Lock.{
  Lock, LocalHeldLock, PendingLock, Call, shared, exclusive, new_lock, can_grant, occupy, vacate,
  grant, drain_shared, drain_queue, drain, enqueue_pending, release_token, release, without,
  cancel_pending, acquire, acquires, releases, cancels, step, run, is_empty_state,
}
use opfs.Lock.Invariant.{held, run_excludes}
use opfs.Lock.Order.{order, order_after, order-step}
use opfs.Lock.Fairness.{IsSettled, run-new_lock-IsSettled, run_releases_all}

-- Two readers hold the lock, a writer waits, and a third reader waits behind it.
abbrev contended : List Call
contended =
    acquires 0 shared false
    ∷ acquires 1 shared false
    ∷ acquires 2 exclusive false
    ∷ acquires 3 shared false
    ∷ []

abbrev granted : Lock → List ℕ
granted l = map (λ (t : LocalHeldLock). t.request) l.tokens

abbrev waiting : Lock → List ℕ
waiting l = map (λ (p : PendingLock). p.request) l.queue

contended_runs :
    (granted (run new_lock contended) ≡ 0 ∷ 1 ∷ [])
    × (waiting (run new_lock contended) ≡ 2 ∷ 3 ∷ [])
    × (granted (run (run new_lock contended) (releases 0 ∷ releases 0 ∷ [])) ≡ 0 ∷ 1 ∷ [])
    × (granted (run (run new_lock contended) (releases 0 ∷ releases 1 ∷ [])) ≡ 0 ∷ 1 ∷ 2 ∷ [])
    × (granted (run (run new_lock contended) (cancels 2 ∷ [])) ≡ 0 ∷ 1 ∷ 3 ∷ [])
unfolding run step acquire enqueue_pending can_grant grant occupy release release_token vacate drain
    drain_queue drain_shared cancel_pending without
contended_runs = (refl, refl, refl, refl, refl)

run_excludes_example :
    (held exclusive (run new_lock contended).tokens ≤ 1)
    × ((held exclusive (run new_lock contended).tokens ≡ 0)
        ⊎ (held shared (run new_lock contended).tokens ≡ 0))
run_excludes_example = run_excludes contended

order-step_example :
    order (step (run new_lock contended) (cancels 2))
    ≡ order_after (run new_lock contended) (cancels 2)
order-step_example = order-step (run new_lock contended) (cancels 2)

run-new_lock-IsSettled_example : IsSettled (run new_lock contended)
run-new_lock-IsSettled_example = run-new_lock-IsSettled contended

abbrev finished : List Call
finished = acquires 0 shared false ∷ acquires 1 exclusive false ∷ releases 0 ∷ releases 1 ∷ []

finished_shared : held shared (run new_lock finished).tokens ≡ 0
unfolding held run step acquire enqueue_pending can_grant grant occupy release release_token vacate
    drain drain_queue drain_shared
finished_shared = refl

finished_exclusive : held exclusive (run new_lock finished).tokens ≡ 0
unfolding held run step acquire enqueue_pending can_grant grant occupy release release_token vacate
    drain drain_queue drain_shared
finished_exclusive = refl

run_releases_all_example : is_empty_state (run new_lock finished).state ≡ true
run_releases_all_example = run_releases_all finished finished_shared finished_exclusive
