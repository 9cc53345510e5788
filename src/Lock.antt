-- ===== src/Lock.antt =====
-- The in-realm reader/writer lock of src/lock.ts: `LocalLockStateType`, `canGrant`, `grant`,
-- `drain`, `enqueuePending`, `cancelPending` and `LocalHeldLock.release`, on one lock name.
-- A `Lock` is the state object with what the calls hand out: the tokens granted, oldest first, and
-- the requests rejected. A token is a place in that list, and a request a number that is fresh.
use opfs.Prelude.{
  ℕ, zero, suc, ◌+◌, ◌-◌, Option, none, some, Bool, true, false, not, ◌&&◌, List, [], ◌∷◌, ◌++◌,
  ◌==◌, get_elem?, set, if◌then◌else◌,
}
pub mod Drain
pub mod Invariant
pub mod Order
pub mod Fairness
pub mod Tests

-- `LockModeType`.
pub data LockMode : Type 0 where
  shared exclusive : LockMode

-- `PendingLockType`. Its promise is settled by a token or by a rejection; that it came with a
-- signal shows in the calls that cancel it.
pub record PendingLock : Type 0 where
  pub request : ℕ
  pub mode : LockMode

pub record LocalLockState : Type 0 where
  pub readers : ℕ
  pub writer : Bool
  pub queue : List PendingLock

-- `LocalHeldLock`, for the request that it was handed to.
pub record LocalHeldLock : Type 0 where
  pub request : ℕ
  pub mode : LockMode
  pub released : Bool

pub record Lock : Type 0 where
  pub state : LocalLockState
  pub open state use *
  pub tokens : List LocalHeldLock
  pub rejected : List ℕ

-- The state that `getState` makes.
abbrev pub empty_state : LocalLockState
empty_state = record { readers = 0; writer = false; queue = [] }

abbrev pub new_lock : Lock
new_lock = record { state = empty_state; tokens = []; rejected = [] }

unfoldable pub can_grant : LocalLockState → LockMode → Bool
can_grant s exclusive = not s.writer && s.readers == 0
can_grant s shared = not s.writer

-- The test of `removeEmptyState`.
unfoldable pub is_empty_state : LocalLockState → Bool
is_empty_state s = not s.writer && s.readers == 0 && elim s.queue [ [] ↦ true | _ ↦ false ]

-- Occupancy after a grant, and after a release.
unfoldable pub occupy : LocalLockState → LockMode → LocalLockState
occupy s exclusive = record s { writer = true }
occupy s shared = record s { readers = s.readers + 1 }

unfoldable pub vacate : LocalLockState → LockMode → LocalLockState
vacate s exclusive = record s { writer = false }
vacate s shared = record s { readers = s.readers - 1 }

abbrev pub token_of : PendingLock → LocalHeldLock
token_of p = record { request = p.request; mode = p.mode; released = false }

unfoldable pub grant : Lock → PendingLock → Lock
grant l p = record l { state = occupy l.state p.mode; tokens = l.tokens ++ token_of p ∷ [] }

abbrev pub with_queue : Lock → List PendingLock → Lock
with_queue l queue = record l { state = record l.state { queue = queue } }

-- The loop of `drain`, over the queue: the shared requests at its head.
unfoldable pub drain_shared : Lock → List PendingLock → Lock
drain_shared l [] = l
drain_shared l (p ∷ rest) = elim l.writer [
  | true ↦ l
  | false ↦ elim p.mode [ exclusive ↦ l | shared ↦ drain_shared (grant (with_queue l rest) p) rest ]
]

-- What `drain` does where no writer holds the lock.
unfoldable pub drain_queue : Lock → List PendingLock → Lock
drain_queue l [] = l
drain_queue l (first ∷ rest) = elim first.mode [
  | exclusive ↦ if l.readers == 0 then grant (with_queue l rest) first else l
  | shared ↦ drain_shared l (first ∷ rest)
]

unfoldable pub drain : Lock → Lock
drain l = if l.writer then l else drain_queue l l.queue

unfoldable pub enqueue_pending : Lock → PendingLock → Lock
enqueue_pending l p = elim l.queue [
  | [] ↦ if can_grant l.state p.mode then grant l p else with_queue l (p ∷ [])
  | q ∷ rest ↦ with_queue l (l.queue ++ p ∷ [])
]

-- The lock once the token at a place has given its occupancy back.
abbrev pub vacated : Lock → ℕ → LocalHeldLock → Lock
vacated l i t = record l {
  state = vacate l.state t.mode;
  tokens = set l.tokens i (record t { released = true });
}

-- `release` on the token at a place of the list.
unfoldable pub release_token : Lock → ℕ → Option LocalHeldLock → Lock
release_token l i none = l
release_token l i (some t) = if t.released then l else drain (vacated l i t)

unfoldable pub release : Lock → ℕ → Lock
release l i = release_token l i (get_elem? l.tokens i)

-- `queue.splice(queue.indexOf(pending), 1)`; `none` if the request is not in the queue.
unfoldable pub without : ℕ → List PendingLock → Option (List PendingLock)
without r [] = none
without r (p ∷ rest) =
    if p.request == r
    then some rest
    else elim (without r rest) [ none ↦ none | some q ↦ some (p ∷ q) ]

-- The lock once a request is rejected and out of the queue.
abbrev pub unqueued : Lock → ℕ → List PendingLock → Lock
unqueued l r queue = record (with_queue l queue) { rejected = l.rejected ++ r ∷ [] }

unfoldable pub cancel_pending : Lock → ℕ → Lock
cancel_pending l r = elim (without r l.queue) [ none ↦ l | some queue ↦ drain (unqueued l r queue) ]

-- `acquire`, from the state that `getState` returns. An aborted signal rejects the request.
unfoldable pub acquire : Lock → ℕ → LockMode → Bool → Lock
acquire l r mode aborted =
    if aborted
    then record l { rejected = l.rejected ++ r ∷ [] }
    else enqueue_pending l (record { request = r; mode = mode })

-- What the holders of the lock and the event loop may call, in any order.
pub data Call : Type 0 where
  acquires : ℕ → LockMode → Bool → Call
  releases : ℕ → Call
  cancels : ℕ → Call

unfoldable pub step : Lock → Call → Lock
step l (acquires r mode aborted) = acquire l r mode aborted
step l (releases i) = release l i
step l (cancels r) = cancel_pending l r

unfoldable pub run : Lock → List Call → Lock
run l [] = l
run l (c ∷ cs) = run (step l c) cs
