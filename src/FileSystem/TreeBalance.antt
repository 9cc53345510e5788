-- ===== src/FileSystem/TreeBalance.antt =====
-- Removal under the lock and buffer discipline of FileSystem/Balance.
use opfs.Prelude.{ℕ, ◌-◌, ◌≡◌, refl, ap, Option, some, Bool, true, List, [], ◌∷◌, Text, leb, arith}
use opfs.Failure.{Result, ok, throw, Thrown, AbortSignal}
use opfs.Adapter.{Adapter, DirectoryEntry}
use opfs.Support.{SupportMode}
use opfs.FileSystem.{MetricOperation, buffered, unbuffered, recorded, Facade, Config, Act, emit}
use opfs.FileSystem.Balance.{
  Book, enter, closed_book, open_book, Stands, Ends, emit-Leads, bind-Leads, finally-Leads,
  below-append,
}
use opfs.FileSystem.Discipline.{Keeps, keeps_rules, stat-Keeps}
use opfs.FileSystem.Removal.{
  is_throw, tallied, tracked, with_buffer, remove_normal, remove, remove_children, empty_locked,
  empty_dir,
}

abbrev pub buffering : ℕ → Book
buffering n = record { holds = true; bytes = n }

returned_total : (n : ℕ) → leb n n ≡ true
returned_total n = ground arith

returned_none : (n : ℕ) → n - n ≡ 0
returned_none n = omega arith

buffer_enters : (n : ℕ) → enter (buffered n) open_book ≡ some (buffering n)
unfolding enter
buffer_enters n = ap (λ k. some (buffering k)) (omega arith)

unbuffer_leaves : (n : ℕ) → enter (unbuffered n) (buffering n) ≡ some open_book
unfolding enter
unbuffer_leaves n = rw (returned_total n) (ap (λ k. some (buffering k)) (returned_none n))

module _ {S : Type 0} where
  after_tally :
      {A : Type 0} (t : MetricOperation) (s : SupportMode) (n : Option ℕ) (failed : Bool) (b : Book)
      (r : Result A) (g : Facade S)
      → Ends b b (r, g)
      → Ends b b (r, (emit (recorded t s n failed) g).1)
  unfolding emit enter
  after_tally t s n failed b (ok a) g h = below-append g.events _ closed_book b b h refl
  after_tally t s n failed b (throw e) g h = below-append g.events _ closed_book b b h refl

  pub Keeps-tallied :
      {A : Type 0} (b : Book) (t : MetricOperation) (s : SupportMode) (n : Option ℕ) (m : Act S A)
      → Keeps b m
      → Keeps b (tallied t s n m)
  unfolding tallied
  Keeps-tallied b t s n m h = record {
    at = λ f st. after_tally t s n (is_throw (m f).0) b (m f).0 (m f).1 (h.at f st);
  }

  either_end : {A : Type 0} (b : Book) (r : Result A) (g : Facade S) → Ends b b (r, g) → Stands g b
  either_end b (ok a) g h = h
  either_end b (throw e) g h = h

  pub Keeps-tracked :
      (b : Book) (failed : Option Thrown) (m : Act S (Unit {0}))
      → Keeps b m
      → Keeps b (tracked failed m)
  unfolding tracked
  Keeps-tracked b failed m h = record { at = λ f s. either_end b (m f).0 (m f).1 (h.at f s) }

  pub Keeps-buffer :
      (n : ℕ) (m : Act S (Unit {0})) → Keeps (buffering n) m → Keeps open_book (with_buffer n m)
  unfolding with_buffer
  Keeps-buffer n m h =
      bind-Leads _ _ open_book (buffering n) open_book open_book
        (emit-Leads (buffered n) open_book (buffering n) open_book (buffer_enters n))
        λ _.
          finally-Leads m (unbuffered n) (buffering n) (buffering n) open_book h (unbuffer_leaves n)

pub ruleset tree_rules = (keeps_rules, Keeps-tallied, Keeps-tracked, Keeps-buffer)

module _ {S : Type 0} (adapter : Adapter S) (config : Config) where
  remove_normal-Keeps :
      (fuel : ℕ) (path : Text) (recursive : Bool) (signal : Option AbortSignal)
      → Keeps closed_book (remove_normal adapter config fuel path recursive signal)
  unfolding remove_normal
  remove_normal-Keeps fuel path recursive signal = search tree_rules

  pub remove-Keeps :
      (fuel : ℕ) (path : Text) (recursive : Bool) (signal : Option AbortSignal)
      → Keeps closed_book (remove adapter config fuel path recursive signal)
  unfolding remove
  remove-Keeps fuel path recursive signal = search (tree_rules, remove_normal-Keeps)

  children-Keeps :
      (fuel : ℕ) (signal : Option AbortSignal) (failed : Option Thrown) (path : Text)
      (entries : List DirectoryEntry)
      → Keeps open_book (remove_children adapter config fuel signal failed path entries)
  unfolding remove_children
  children-Keeps fuel signal failed path [] = search tree_rules
  children-Keeps fuel signal failed path (entry ∷ entries) =
      search (tree_rules, λ (next : Option Thrown). children-Keeps fuel signal next path entries)
        depth 10

  empty_locked-Keeps :
      (fuel : ℕ) (path : Text) (signal : Option AbortSignal)
      → Keeps open_book (empty_locked adapter config fuel path signal)
  unfolding empty_locked
  empty_locked-Keeps fuel path signal = search (tree_rules, children-Keeps) depth 10

  pub empty_dir-Keeps :
      (fuel : ℕ) (path : Text) (concurrency : Option ℕ) (signal : Option AbortSignal)
      → Keeps closed_book (empty_dir adapter config fuel path concurrency signal)
  unfolding empty_dir
  empty_dir-Keeps fuel path concurrency signal =
      search (tree_rules, stat-Keeps, empty_locked-Keeps) depth 12
