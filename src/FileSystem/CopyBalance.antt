-- ===== src/FileSystem/CopyBalance.antt =====
-- Copies and moves under the lock and buffer discipline of FileSystem/Balance.
use opfs.Prelude.{ℕ, zero, suc, Option, none, some, Bool, List, [], ◌∷◌, Text}
use opfs.Failure.{Thrown, AbortSignal}
use opfs.Exec.{Exec}
use opfs.Adapter.{
  Adapter, WriteOptions, Stat, file_stat, directory_stat, DirectoryEntry, EntryKind, file,
  directory,
}
use opfs.FileSystem.{Config, FacadeStat, StreamLibrary}
use opfs.FileSystem.Balance.{closed_book, open_book}
use opfs.FileSystem.Discipline.{Keeps, stat-Keeps}
use opfs.FileSystem.Removal.{Walked, going, stopped}
use opfs.FileSystem.Copying.{
  copy_buffered, ReadStream, WriteStream, copy_collected, copy_stream, copy_read, copy_found,
  copy_emulated, copy_file, Walk, copy_kind, copy_entry, copy_next, copy_entries, copy_below,
  copy_directory, copy_from, copy_locked, copy, copy_then_remove, move_entry, move_normal, move,
}
use opfs.FileSystem.TreeBalance.{tree_rules, remove-Keeps}

module _ {S : Type 0} (adapter : Adapter S) (config : Config) (library : StreamLibrary) where
  buffered-Keeps :
      (source destination : Text) (size : ℕ) (options : WriteOptions)
      → Keeps open_book (copy_buffered adapter config library source destination size options)
  unfolding copy_buffered
  buffered-Keeps source destination size options = search tree_rules depth 12

  collected-Keeps :
      (open_stream : ReadStream adapter config library) (source destination : Text) (size : ℕ)
      (options : WriteOptions)
      → Keeps open_book
          (copy_collected adapter config library open_stream source destination size options)
  unfolding copy_collected
  collected-Keeps open_stream source destination size options = search tree_rules depth 12

  stream-Keeps :
      (open_stream : ReadStream adapter config library)
      (write : Option (WriteStream adapter config library)) (source destination : Text) (size : ℕ)
      (options : WriteOptions)
      → Keeps open_book
          (copy_stream adapter config library open_stream write source destination size options)
  unfolding copy_stream
  stream-Keeps open_stream none source destination size options =
      collected-Keeps open_stream source destination size options
  stream-Keeps open_stream (some write) source destination size options =
      search (tree_rules, collected-Keeps) depth 12

  read-Keeps :
      (open_stream : Option (ReadStream adapter config library)) (source destination : Text)
      (size : ℕ) (options : WriteOptions)
      → Keeps open_book
          (copy_read adapter config library open_stream source destination size options)
  unfolding copy_read
  read-Keeps none source destination size options = buffered-Keeps source destination size options
  read-Keeps (some open_stream) source destination size options =
      search (tree_rules, stream-Keeps, buffered-Keeps)

  found-Keeps :
      (source destination : Text) (signal : Option AbortSignal) (found : Option Stat)
      → Keeps open_book (copy_found adapter config library source destination signal found)
  unfolding copy_found
  found-Keeps source destination signal none = search tree_rules
  found-Keeps source destination signal (some (file_stat size modified media)) =
      read-Keeps adapter.open_read_stream source destination size _
  found-Keeps source destination signal (some (directory_stat modified)) = search tree_rules

  emulated-Keeps :
      (source destination : Text) (signal : Option AbortSignal)
      → Keeps open_book (copy_emulated adapter config library source destination signal)
  unfolding copy_emulated
  emulated-Keeps source destination signal = search (tree_rules, found-Keeps)

  file-Keeps :
      (native_copy : Option (Text → Text → Bool → Exec S (Unit {0}))) (source destination : Text)
      (signal : Option AbortSignal)
      → Keeps open_book (copy_file adapter config library native_copy source destination signal)
  unfolding copy_file
  file-Keeps none source destination signal = emulated-Keeps source destination signal
  file-Keeps (some native_copy) source destination signal = search (tree_rules, emulated-Keeps)

  -- What a walk below keeps the books with.
  record Walks (again : Walk adapter config library) : Type 0 where
    walks : (path : Text) (failed : Option Thrown) → Keeps open_book (again path failed)

  kind-Keeps :
      (again : Walk adapter config library) (signal : Option AbortSignal) (child target : Text)
      (kind : EntryKind)
      → Walks again
      → Keeps open_book (copy_kind adapter config library again signal child target kind)
  unfolding copy_kind
  kind-Keeps again signal child target file h = search (tree_rules, file-Keeps) depth 10
  kind-Keeps again signal child target directory h = search (tree_rules, h.walks) depth 10

  entry-Keeps :
      (again : Walk adapter config library) (from to : Text) (signal : Option AbortSignal)
      (child : Text) (entry : DirectoryEntry)
      → Walks again
      → Keeps open_book (copy_entry adapter config library again from to signal child entry)
  unfolding copy_entry
  entry-Keeps again from to signal child entry h = search (tree_rules, kind-Keeps, h) depth 10

  next-Keeps :
      (again : Walk adapter config library) (from to : Text) (signal : Option AbortSignal)
      (failed : Option Thrown) (child : Text) (entry : DirectoryEntry)
      → Walks again
      → Keeps open_book (copy_next adapter config library again from to signal failed child entry)
  unfolding copy_next
  next-Keeps again from to signal (some e) child entry h = search tree_rules
  next-Keeps again from to signal none child entry h =
      entry-Keeps again from to signal child entry h

  entries-Keeps :
      (again : Walk adapter config library) (from to : Text) (signal : Option AbortSignal)
      (path : Text) (entries : List DirectoryEntry) (walked : Walked)
      → Walks again
      → Keeps open_book
          (copy_entries adapter config library again from to signal path entries walked)
  unfolding copy_entries
  entries-Keeps again from to signal path entries (stopped e) h = search tree_rules
  entries-Keeps again from to signal path [] (going failed) h = search tree_rules
  entries-Keeps again from to signal path (entry ∷ entries) (going failed) h =
      search
        (
          tree_rules,
          next-Keeps,
          h,
          λ (next : Walked). entries-Keeps again from to signal path entries next h,
        )
        depth 12

  below-Walks :
      (fuel : ℕ) (from to : Text) (signal : Option AbortSignal)
      → Walks (copy_below adapter config library fuel from to signal)
  unfolding copy_below
  below-Walks zero from to signal = record { walks = λ path failed. search tree_rules }
  below-Walks (suc fuel) from to signal = record {
    walks =
        λ path failed. search (tree_rules, entries-Keeps, below-Walks fuel from to signal) depth 10;
  }

  directory-Keeps :
      (fuel : ℕ) (from to : Text) (signal : Option AbortSignal)
      → Keeps open_book (copy_directory adapter config library fuel from to signal)
  unfolding copy_directory
  directory-Keeps fuel from to signal =
      let h = below-Walks fuel from to signal in search (tree_rules, h.walks) depth 10

  from-Keeps :
      (fuel : ℕ) (from to : Text) (overwrite : Bool) (signal : Option AbortSignal)
      (source : FacadeStat)
      → Keeps open_book (copy_from adapter config library fuel from to overwrite signal source)
  unfolding copy_from
  from-Keeps fuel from to overwrite signal source =
      search (tree_rules, directory-Keeps, file-Keeps) depth 10

  locked-Keeps :
      (fuel : ℕ) (from to : Text) (overwrite : Bool) (signal : Option AbortSignal)
      → Keeps open_book (copy_locked adapter config library fuel from to overwrite signal)
  unfolding copy_locked
  locked-Keeps fuel from to overwrite signal = search (tree_rules, stat-Keeps, from-Keeps) depth 10

  pub copy-Keeps :
      (fuel : ℕ) (from to : Text) (overwrite : Bool) (concurrency : Option ℕ)
      (signal : Option AbortSignal)
      → Keeps closed_book (copy adapter config library fuel from to overwrite concurrency signal)
  unfolding copy
  copy-Keeps fuel from to overwrite concurrency signal = search (tree_rules, locked-Keeps) depth 14

  then_remove-Keeps :
      (fuel : ℕ) (from to : Text) (overwrite : Bool) (concurrency : Option ℕ)
      (signal : Option AbortSignal)
      → Keeps closed_book
          (copy_then_remove adapter config library fuel from to overwrite concurrency signal)
  unfolding copy_then_remove
  then_remove-Keeps fuel from to overwrite concurrency signal =
      search (tree_rules, copy-Keeps, remove-Keeps adapter config)

  move_entry-Keeps :
      (native_move : Option (Text → Text → Bool → Exec S (Unit {0}))) (fuel : ℕ) (from to : Text)
      (overwrite : Bool) (concurrency : Option ℕ) (signal : Option AbortSignal)
      → Keeps closed_book
          (move_entry adapter config library native_move fuel from to overwrite concurrency signal)
  unfolding move_entry
  move_entry-Keeps none fuel from to overwrite concurrency signal =
      then_remove-Keeps fuel from to overwrite concurrency signal
  move_entry-Keeps (some native_move) fuel from to overwrite concurrency signal =
      search (tree_rules, then_remove-Keeps)

  move_normal-Keeps :
      (fuel : ℕ) (from to : Text) (overwrite : Bool) (concurrency : Option ℕ)
      (signal : Option AbortSignal)
      → Keeps closed_book
          (move_normal adapter config library fuel from to overwrite concurrency signal)
  unfolding move_normal
  move_normal-Keeps fuel from to overwrite concurrency signal =
      search (tree_rules, move_entry-Keeps) depth 10

  pub move-Keeps :
      (fuel : ℕ) (from to : Text) (overwrite : Bool) (concurrency : Option ℕ)
      (signal : Option AbortSignal)
      → Keeps closed_book (move adapter config library fuel from to overwrite concurrency signal)
  unfolding move
  move-Keeps fuel from to overwrite concurrency signal =
      search (tree_rules, move_normal-Keeps) depth 14
