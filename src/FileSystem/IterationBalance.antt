-- ===== src/FileSystem/IterationBalance.antt =====
-- Listings, walks, snapshots, streams and long-lived files under the lock and buffer discipline of
-- FileSystem/Balance.
use opfs.Prelude.{
  ℕ, zero, suc, refl, Option, none, some, Bool, true, false, List, [], ◌∷◌, Text, String,
  if◌then◌else◌,
}
use opfs.Failure.{Result, ok, throw, Thrown, AbortSignal, package_error, to_file_system_error}
use opfs.Exec.{Exec, lift, ◌>>=◌, ◌>>◌}
use opfs.Adapter.{Adapter, ReadOptions, DirectoryEntry, Stat, file_stat, directory_stat}
use opfs.FileSystem.{Facade, released, Config, Act, on_store, emit, acquire_file}
use opfs.FileSystem.Balance.{
  enter, closed_book, open_book, Stands, Ends, Leads, on_store-Leads, bind-Leads, catch-Leads,
  if_Leads, open-Leads, acquire_file-Leads, below-append,
}
use opfs.FileSystem.Discipline.{Keeps, Keeps-lift, keeps_rules, stat-Keeps, read_file-Keeps}
use opfs.FileSystem.Iteration.{
  WalkEntry, WalkOptions, make_entry, make_entries, read_dir_at, read_dir, walk_entry, walk_entries,
  walk_children, walk, stream_chunks, open_read_stream, open_locked, open_held, open_normal,
  open_long_lived, snapshot, get_file, close,
}

module _ {S : Type 0} (adapter : Adapter S) (config : Config) where
  entry-Keeps :
      (path : Text) (signal : Option AbortSignal) (depth : ℕ) (entry : DirectoryEntry)
      (following : Act S (List WalkEntry))
      → Keeps closed_book following
      → Keeps closed_book (make_entry adapter config path signal depth entry following)
  unfolding make_entry
  entry-Keeps path signal depth entry following h = search keeps_rules depth 10

  entries-Keeps :
      (path : Text) (signal : Option AbortSignal) (depth : ℕ) (entries : List DirectoryEntry)
      → Keeps closed_book (make_entries adapter config path signal depth entries)
  unfolding make_entries
  entries-Keeps path signal depth [] = search keeps_rules
  entries-Keeps path signal depth (entry ∷ entries) =
      entry-Keeps path signal depth entry _ (entries-Keeps path signal depth entries)

  read_dir_at-Keeps :
      (depth : ℕ) (path : Text) (signal : Option AbortSignal)
      → Keeps closed_book (read_dir_at adapter config depth path signal)
  unfolding read_dir_at
  read_dir_at-Keeps depth path signal = search (keeps_rules, stat-Keeps, entries-Keeps) depth 12

  pub read_dir-Keeps :
      (path : Text) (signal : Option AbortSignal)
      → Keeps closed_book (read_dir adapter config path signal)
  unfolding read_dir
  read_dir-Keeps path signal = read_dir_at-Keeps 1 path signal

  -- A walk of the directories below that keeps the books closed.
  record Walks (again : Text → Act S (List WalkEntry)) : Type 0 where
    walks : (path : Text) → Keeps closed_book (again path)

  walk_entry-Keeps :
      (again : Text → Act S (List WalkEntry)) (deeper : Bool) (options : WalkOptions)
      (entry : WalkEntry) (following : Act S (List WalkEntry))
      → Walks again
      → Keeps closed_book following
      → Keeps closed_book (walk_entry adapter config again deeper options entry following)
  unfolding walk_entry
  walk_entry-Keeps again deeper options entry following h k = search (keeps_rules, h.walks) depth 10

  walk_entries-Keeps :
      (again : Text → Act S (List WalkEntry)) (deeper : Bool) (options : WalkOptions)
      (entries : List WalkEntry)
      → Walks again
      → Keeps closed_book (walk_entries adapter config again deeper options entries)
  unfolding walk_entries
  walk_entries-Keeps again deeper options [] h = search keeps_rules
  walk_entries-Keeps again deeper options (entry ∷ entries) h =
      walk_entry-Keeps again deeper options entry _ h
        (walk_entries-Keeps again deeper options entries h)

  children-Walks :
      (fuel : ℕ) (options : WalkOptions) (depth : ℕ)
      → Walks (walk_children adapter config fuel options depth)
  unfolding walk_children
  children-Walks zero options depth = record { walks = λ path. search keeps_rules }
  children-Walks (suc fuel) options depth = record {
    walks = λ path.
        search
          (
            keeps_rules,
            read_dir_at-Keeps,
            walk_entries-Keeps,
            children-Walks fuel options (suc depth),
          )
          depth 10;
  }

  pub walk-Keeps :
      (fuel : ℕ) (path : Text) (options : WalkOptions)
      → Keeps closed_book (walk adapter config fuel path options)
  unfolding walk
  walk-Keeps fuel path options =
      let h = children-Walks fuel options 0 in search (keeps_rules, stat-Keeps, h.walks) depth 12

  stream_chunks-Keeps :
      (path : Text) (options : ReadOptions)
      → Keeps closed_book (stream_chunks adapter config path options)
  unfolding stream_chunks
  stream_chunks-Keeps path options = search keeps_rules depth 10

  pub open_read_stream-Keeps :
      (path : Text) (options : ReadOptions)
      → Keeps closed_book (open_read_stream adapter config path options)
  unfolding open_read_stream
  open_read_stream-Keeps path options = search (keeps_rules, stream_chunks-Keeps)

  snapshot-Keeps :
      (path name : Text) (signal : Option AbortSignal) (found : Stat)
      → Keeps closed_book (snapshot adapter config path name signal found)
  unfolding snapshot
  snapshot-Keeps path name signal (file_stat size modified media) =
      search (keeps_rules, read_file-Keeps)
  snapshot-Keeps path name signal (directory_stat modified) = search keeps_rules

  pub get_file-Keeps :
      (path : Text) (signal : Option AbortSignal)
      → Keeps closed_book (get_file adapter config path signal)
  unfolding get_file
  get_file-Keeps path signal = search (keeps_rules, stat-Keeps, snapshot-Keeps)

  module _ {F : Type 0} (operation : String) (capable : Bool) (open_native : Text → Exec S F) where
    then_opened :
        {A B : Type 0} (m : Act S A) (k : A → Act S B)
        → Keeps closed_book m
        → ((a : A) → Leads closed_book (k a) open_book closed_book)
        → Leads closed_book (m >>= k) open_book closed_book
    then_opened m k h n = bind-Leads m k closed_book closed_book closed_book open_book h n

    release_Leads :
        {A : Type 0} (x : Thrown)
        → Leads {S = S} {A = A} open_book (do emit released; lift (throw x)) open_book closed_book
    unfolding emit enter
    release_Leads x = record {
      at = λ f s. below-append f.events released closed_book open_book closed_book s refl;
    }

    open_held-Leads :
        (path : Text) (create parents : Bool) (signal : Option AbortSignal)
        → Leads closed_book
            (open_held adapter config operation capable open_native path create parents signal)
            open_book
            closed_book
    unfolding open_held
    open_held-Leads path create parents signal =
        bind-Leads (acquire_file signal path) _ closed_book open_book closed_book open_book
          (acquire_file-Leads signal path)
          λ _.
            catch-Leads
              (on_store (
                open_locked adapter config operation capable open_native path create parents
                  signal))
              _ open_book open_book open_book closed_book (on_store-Leads _ open_book)
              λ x. release_Leads (package_error (to_file_system_error x operation (some path)))

    refused-Leads :
        {A : Type 0} (x : Thrown)
        → Leads {S = S} {A = A} closed_book (lift (throw x)) open_book closed_book
    refused-Leads x = record { at = λ f s. s }

    opened_if :
        {A : Type 0} (t : Bool) (m n : Act S A)
        → Leads closed_book m open_book closed_book
        → Leads closed_book n open_book closed_book
        → Leads closed_book (if t then m else n) open_book closed_book
    opened_if t m n h k = if_Leads t m n closed_book open_book closed_book h k

    open_normal-Leads :
        (path : Text) (create parents : Bool) (signal : Option AbortSignal)
        → Leads closed_book
            (open_normal adapter config operation capable open_native path create parents signal)
            open_book
            closed_book
    unfolding open_normal
    open_normal-Leads path create parents signal = search (then_opened, Keeps-lift, open_held-Leads)

    -- A long-lived file is opened with its lock: on a facade whose books are closed, the lock is held once
    -- the file is returned, which owns it from then on, and the books are closed again if the opening
    -- fails at any step.
    pub open_long_lived-Leads :
        (path : Text) (create parents : Bool) (signal : Option AbortSignal)
        → Leads closed_book
            (open_long_lived adapter config operation capable open_native path create parents
              signal)
            open_book
            closed_book
    unfolding open_long_lived
    open_long_lived-Leads path create parents signal =
        search (then_opened, open-Leads, Keeps-lift, opened_if, refused-Leads, open_normal-Leads)

-- The end of a facade takes no lock and no buffer.
closing :
    {S : Type 0} (shut : Bool) (f : Facade S) (p : Result (Unit {0}) × Facade S)
    → Stands f closed_book
    → Ends closed_book closed_book p
    → Ends closed_book closed_book (if shut then (ok tt, f) else p)
closing true f p s e = s
closing false f p s e = e

pub close-Keeps :
    {S : Type 0} (dispose : Option (Exec S (Unit {0}))) → Keeps closed_book (close dispose)
unfolding close
close-Keeps none = record { at = λ f s. closing f.closed f _ s s }
close-Keeps (some end) = record {
  at = λ f s.
      closing f.closed f _ s ((on_store-Leads end closed_book).at (record f { closed = true }) s);
}
