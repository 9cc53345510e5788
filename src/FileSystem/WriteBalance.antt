-- ===== src/FileSystem/WriteBalance.antt =====
-- `writeFile` under the lock and buffer discipline: what its locals and the books say of each other
-- through the three routes, and that its `finally` closes the books.
use opfs.Prelude.{
  ℕ, ◌+◌, ◌-◌, ◌≡◌, refl, ap, subst, Option, none, some, Bool, true, false, List, Text, ltb, leb,
  if◌then◌else◌, arith,
}
use opfs.Failure.{Result, ok, throw}
use opfs.Bytes.{Bytes}
use opfs.Exec.{Exec, lift, continue, ◌>>=◌}
use opfs.Adapter.{Adapter, WriteOptions, Stat}
use opfs.Support.{SupportMode}
use opfs.FileSystem.{
  buffered, unbuffered, released, recorded, Facade, Config, on_store, emit, write_metric, WriteData,
  whole_data, stream_data, Writing, StreamLibrary,
}
use opfs.FileSystem.Contents.{
  within, set_support, set_bytes, buffer, record_success, record_failure, release_write,
  materialize, route_stream, route_data, write_body, write_locked, write_normal, write_file,
}
use opfs.FileSystem.Balance.{
  Book, enter, closed_book, open_book, Stands, Leads, bind-Leads, acquire_file-Leads, below-append,
  Stands-both,
}
use opfs.FileSystem.Discipline.{Keeps, keeps_rules}

abbrev pub buffering : ℕ → Book
buffering n = record { holds = true; bytes = n }

-- The lock is held, and the books hold as many bytes as the local says.
abbrev pub Fits : {S : Type 0} → Writing S → Type 0
Fits w = Stands w.facade (buffering w.buffered)

-- How far a writing has come.
data Phase : Type 0 where
  unbuffered_yet may_buffer : Phase

abbrev Holds : {S : Type 0} → Phase → Writing S → Type 0
Holds unbuffered_yet w = Fits w × (w.buffered ≡ 0)
Holds may_buffer w = Fits w

abbrev Ended : {S A : Type 0} → Phase → Result A × Writing S → Type 0
Ended q (ok a, w) = Holds q w
Ended q (throw e, w) = Fits w

-- From one phase to another, or to a writing that fits where the step throws.
record Steps {S A : Type 0} (p : Phase) (m : Exec (Writing S) A) (q : Phase) : Type 0 where
  at : (w : Writing S) → Holds p w → Ended q (m w)

buffered_total : (k n : ℕ) → k ≡ 0 → k + n ≡ n
buffered_total k n z = omega arith

unbuffered_total : (n : ℕ) → n - n ≡ 0
unbuffered_total n = omega arith

unbuffered_none : (n : ℕ) → ltb 0 n ≡ false → n ≡ 0
unbuffered_none n e = ground arith

unbuffered_allowed : (n : ℕ) → leb n n ≡ true
unbuffered_allowed n = ground arith

-- The buffered bytes are given back.
unbuffer_enters : (n : ℕ) → enter (unbuffered n) (buffering n) ≡ some open_book
unfolding enter
unbuffer_enters n = rw (unbuffered_allowed n) (ap (λ k. some (buffering k)) (unbuffered_total n))

module _ {S : Type 0} where
  continue-Steps :
      {A B : Type 0} (e : Result A × Writing S) (k : A → Exec (Writing S) B) (q r : Phase)
      → Ended q e
      → ((a : A) → Steps q (k a) r)
      → Ended r (continue e k)
  continue-Steps (ok a, w) k q r h n = (n a).at w h
  continue-Steps (throw x, w) k q r h n = h

  Steps-then :
      {A B : Type 0} (m : Exec (Writing S) A) (k : A → Exec (Writing S) B) (p q r : Phase)
      → Steps p m q
      → ((a : A) → Steps q (k a) r)
      → Steps p (m >>= k) r
  Steps-then m k p q r h n = record { at = λ w i. continue-Steps (m w) k q r (h.at w i) n }

  then_unbuffered :
      {A B : Type 0} (m : Exec (Writing S) A) (k : A → Exec (Writing S) B)
      → Steps unbuffered_yet m unbuffered_yet
      → ((a : A) → Steps unbuffered_yet (k a) may_buffer)
      → Steps unbuffered_yet (m >>= k) may_buffer
  then_unbuffered m k h n = Steps-then m k unbuffered_yet unbuffered_yet may_buffer h n

  then_buffered :
      {A B : Type 0} (p : Phase) (m : Exec (Writing S) A) (k : A → Exec (Writing S) B)
      → Steps p m may_buffer
      → ((a : A) → Steps may_buffer (k a) may_buffer)
      → Steps p (m >>= k) may_buffer
  then_buffered p m k h n = Steps-then m k p may_buffer may_buffer h n

  Ended-fresh :
      {A : Type 0} (r : Result A) (w : Writing S)
      → Holds unbuffered_yet w
      → Ended unbuffered_yet (r, w)
  Ended-fresh (ok a) w h = h
  Ended-fresh (throw e) w h = h.0

  Ended-Fits : {A : Type 0} (r : Result A) (w : Writing S) → Fits w → Ended may_buffer (r, w)
  Ended-Fits (ok a) w h = h
  Ended-Fits (throw e) w h = h

  lift_fresh : {A : Type 0} (r : Result A) → Steps {S = S} unbuffered_yet (lift r) unbuffered_yet
  lift_fresh r = record { at = λ w h. Ended-fresh r w h }

  store_fresh :
      {A : Type 0} (m : Exec S A) → Steps unbuffered_yet (within (on_store m)) unbuffered_yet
  unfolding on_store within
  store_fresh m = record { at = λ w h. Ended-fresh (m w.facade.store).0 _ h }

  store_fits : {A : Type 0} (m : Exec S A) → Steps may_buffer (within (on_store m)) may_buffer
  unfolding on_store within
  store_fits m = record { at = λ w h. Ended-Fits (m w.facade.store).0 _ h }

  support_fresh : (s : SupportMode) → Steps {S = S} unbuffered_yet (set_support s) unbuffered_yet
  unfolding set_support
  support_fresh s = record { at = λ w h. h }

  support_fits : (s : SupportMode) → Steps {S = S} may_buffer (set_support s) may_buffer
  unfolding set_support
  support_fits s = record { at = λ w h. h }

  bytes_fresh : (n : ℕ) → Steps {S = S} unbuffered_yet (set_bytes n) unbuffered_yet
  unfolding set_bytes
  bytes_fresh n = record { at = λ w h. h }

  store_last : {A : Type 0} (m : Exec S A) → Steps unbuffered_yet (within (on_store m)) may_buffer
  unfolding on_store within
  store_last m = record { at = λ w h. Ended-Fits (m w.facade.store).0 _ h.0 }

  buffer_fits : (n : ℕ) → Steps {S = S} unbuffered_yet (buffer n) may_buffer
  unfolding enter emit buffer
  buffer_fits n = record {
    at = λ w f.
        below-append w.facade.events (buffered n) closed_book (buffering w.buffered) (buffering n)
          f.0 (ap (λ k. some (buffering k)) (buffered_total w.buffered n f.1));
  }

  success_fits : Steps {S = S} may_buffer record_success may_buffer
  unfolding enter emit record_success
  success_fits = record {
    at = λ w h.
        below-append w.facade.events (recorded write_metric w.support w.bytes false) closed_book
          (buffering w.buffered) (buffering w.buffered) h refl;
  }

  if_Steps :
      {A : Type 0} (t : Bool) (m n : Exec (Writing S) A) (p q : Phase)
      → Steps p m q
      → Steps p n q
      → Steps p (if t then m else n) q
  if_Steps true m n p q h k = h
  if_Steps false m n p q h k = k

ruleset step_rules = (
  then_unbuffered, then_buffered, lift_fresh, store_fresh, store_fits, store_last, support_fresh,
  support_fits, bytes_fresh, buffer_fits, success_fits, if_Steps,
)

module _ {S : Type 0} where
  failure-Fits :
      (path : Text) (p : Result (Unit {0}) × Writing S)
      → Ended may_buffer p
      → Fits (record_failure path p).1
  unfolding record_failure enter emit
  failure-Fits path (ok a, w) h = h
  failure-Fits path (throw e, w) h =
      below-append w.facade.events (recorded write_metric w.support w.bytes true) closed_book
        (buffering w.buffered) (buffering w.buffered) h refl

  unbuffer-Stands :
      (t : Bool) (n : ℕ) (f : Facade S)
      → (t ≡ false → n ≡ 0)
      → Stands f (buffering n)
      → Stands (if t then (emit (unbuffered n) f).1 else f) open_book
  unfolding emit
  unbuffer-Stands true n f z h =
      below-append f.events (unbuffered n) closed_book (buffering n) open_book h (unbuffer_enters n)
  unbuffer-Stands false n f z h = subst (λ k. Stands f (buffering k)) (z refl) h

  release-Stands :
      (p : Result (Unit {0}) × Writing S) → Fits p.1 → Stands (release_write p).1 closed_book
  unfolding release_write emit enter
  release-Stands (r, w) h =
      below-append _ released closed_book open_book closed_book
        (unbuffer-Stands (ltb 0 w.buffered) w.buffered w.facade (unbuffered_none w.buffered) h) refl

module _ {S : Type 0} (adapter : Adapter S) (config : Config) (library : StreamLibrary) where
  materialize-Steps :
      (path : Text) (chunks : List Bytes) (options : WriteOptions) (existing : Option Stat)
      → Steps unbuffered_yet
          (materialize adapter config library path chunks options existing)
          may_buffer
  unfolding materialize
  materialize-Steps path chunks options existing = search step_rules depth 12

  stream-Steps :
      (path : Text) (chunks : List Bytes) (options : WriteOptions) (existing : Option Stat)
      (write : Option (Text → List Bytes → WriteOptions → Exec S (Unit {0})))
      → Steps unbuffered_yet
          (route_stream adapter config library path chunks options existing write)
          may_buffer
  unfolding route_stream
  stream-Steps path chunks options existing none = search (step_rules, materialize-Steps) depth 12
  stream-Steps path chunks options existing (some write) =
      search (step_rules, materialize-Steps) depth 12

  route-Steps :
      (path : Text) (input : WriteData) (options : WriteOptions) (existing : Option Stat)
      → Steps unbuffered_yet
          (route_data adapter config library path input options existing)
          may_buffer
  unfolding route_data
  route-Steps path (whole_data bytes) options existing = search step_rules depth 12
  route-Steps path (stream_data chunks) options existing =
      stream-Steps path chunks options existing adapter.write_stream

  body-Steps :
      (path : Text) (input : WriteData) (options : WriteOptions) (parents : Bool)
      → Steps unbuffered_yet
          (write_body adapter config library path input options parents)
          may_buffer
  unfolding write_body
  body-Steps path input options parents = search (step_rules, route-Steps) depth 12

  locked-Leads :
      (path : Text) (input : WriteData) (options : WriteOptions) (parents : Bool)
      → Leads open_book
          (write_locked adapter config library path input options parents)
          closed_book
          closed_book
  unfolding write_locked
  locked-Leads path input options parents = record {
    at = λ f s. Stands-both _ _ closed_book (
        release-Stands _
          (failure-Fits path _ ((body-Steps path input options parents).at _ (s, refl))));
  }

  write_normal-Keeps :
      (path : Text) (input : WriteData) (options : WriteOptions) (parents : Bool)
      → Keeps closed_book (write_normal adapter config library path input options parents)
  unfolding write_normal
  write_normal-Keeps path input options parents =
      bind-Leads _ _ closed_book open_book closed_book closed_book
        (acquire_file-Leads options.signal path) λ _. locked-Leads path input options parents

  pub write_file-Keeps :
      (path : Text) (input : WriteData) (options : WriteOptions) (parents : Bool)
      → Keeps closed_book (write_file adapter config library path input options parents)
  unfolding write_file
  write_file-Keeps path input options parents = search (keeps_rules, write_normal-Keeps)
