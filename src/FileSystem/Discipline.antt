-- ===== src/FileSystem/Discipline.antt =====
-- The operations of the facade under the lock and buffer discipline of FileSystem/Balance.
use opfs.Prelude.{ℕ, refl, Option, Bool, Text, if◌then◌else◌}
use opfs.Bytes.{Bytes}
use opfs.Failure.{Result, ok, Thrown, AbortSignal}
use opfs.Exec.{Exec, pure, lift, ◌>>=◌}
use opfs.Adapter.{Adapter, ReadOptions, EntryKind}
use opfs.Support.{SupportMode}
use opfs.FileSystem.{Config, Act, MetricOperation, recorded, on_store, emit, catch}
use opfs.FileSystem.Operations.{
  stat_normal, stat, recover_missing, exists_normal, exists, mkdir_normal, mkdir, ensure_dir,
  directory_handle, get_directory_handle, file_handle, get_file_handle, ensure_file,
}
use opfs.FileSystem.Contents.{read_normal, read_file, read_text}
use opfs.FileSystem.Balance.{
  Book, enter, closed_book, Leads, emit-Leads, lift-Leads, on_store-Leads, bind-Leads, if_Leads,
  catch-Leads, open-Leads, under_tree-Leads, under_file-Leads,
}

-- An action that leaves the books as they are.
abbrev pub Keeps : {S A : Type 0} → Book → Act S A → Type 0
Keeps b m = Leads b m b b

module _ {S : Type 0} where
  pub Keeps-then :
      {A B : Type 0} (b : Book) (m : Act S A) (k : A → Act S B)
      → Keeps b m
      → ((a : A) → Keeps b (k a))
      → Keeps b (m >>= k)
  Keeps-then b m k h n = bind-Leads m k b b b b h n

  pub Keeps-recorded :
      (b : Book) (t : MetricOperation) (s : SupportMode) (n : Option ℕ) (failed : Bool)
      → Keeps {S = S} b (emit (recorded t s n failed))
  unfolding enter
  Keeps-recorded b t s n failed = emit-Leads (recorded t s n failed) b b b refl

  pub Keeps-lift : {A : Type 0} (b : Book) (r : Result A) → Keeps {S = S} b (lift r)
  Keeps-lift b r = lift-Leads r b

  pub Keeps-pure : {A : Type 0} (b : Book) (a : A) → Keeps {S = S} b (pure a)
  Keeps-pure b a = lift-Leads (ok a) b

  pub Keeps-on_store : {A : Type 0} (b : Book) (m : Exec S A) → Keeps b (on_store m)
  Keeps-on_store b m = on_store-Leads m b

  pub Keeps-if :
      {A : Type 0} (b : Book) (t : Bool) (m n : Act S A)
      → Keeps b m
      → Keeps b n
      → Keeps b (if t then m else n)
  Keeps-if b t m n h k = if_Leads t m n b b b h k

  pub Keeps-catch :
      {A : Type 0} (b : Book) (m : Act S A) (k : Thrown → Act S A)
      → Keeps b m
      → ((x : Thrown) → Keeps b (k x))
      → Keeps b (catch m k)
  Keeps-catch b m k h n = catch-Leads m k b b b b h n

pub ruleset keeps_rules = (
  Keeps-then, Keeps-recorded, Keeps-lift, Keeps-pure, Keeps-on_store, Keeps-if, Keeps-catch,
  open-Leads, under_tree-Leads, under_file-Leads,
)

module _ {S : Type 0} (adapter : Adapter S) (config : Config) where
  stat_normal-Keeps :
      (b : Book) (path : Text) (signal : Option AbortSignal)
      → Keeps b (stat_normal adapter config path signal)
  unfolding stat_normal
  stat_normal-Keeps b path signal = search keeps_rules depth 10

  pub stat-Keeps :
      (b : Book) (path : Text) (signal : Option AbortSignal)
      → Keeps b (stat adapter config path signal)
  unfolding stat
  stat-Keeps b path signal = search (keeps_rules, stat_normal-Keeps)

  recover_missing-Keeps :
      (path : Text) (e : Thrown) → Keeps closed_book (recover_missing adapter config path e)
  unfolding recover_missing
  recover_missing-Keeps path e = search keeps_rules depth 10

  exists_normal-Keeps :
      (path : Text) (kind : Option EntryKind) (signal : Option AbortSignal)
      → Keeps closed_book (exists_normal adapter config path kind signal)
  unfolding exists_normal
  exists_normal-Keeps path kind signal = search (keeps_rules, recover_missing-Keeps)

  pub exists_Keeps :
      (path : Text) (kind : Option EntryKind) (signal : Option AbortSignal)
      → Keeps closed_book (exists adapter config path kind signal)
  unfolding exists
  exists_Keeps path kind signal = search (keeps_rules, exists_normal-Keeps)

  mkdir_normal-Keeps :
      (path : Text) (recursive : Bool) (signal : Option AbortSignal)
      → Keeps closed_book (mkdir_normal adapter config path recursive signal)
  unfolding mkdir_normal
  mkdir_normal-Keeps path recursive signal = search keeps_rules depth 10

  pub mkdir-Keeps :
      (path : Text) (recursive : Bool) (signal : Option AbortSignal)
      → Keeps closed_book (mkdir adapter config path recursive signal)
  unfolding mkdir
  mkdir-Keeps path recursive signal = search (keeps_rules, mkdir_normal-Keeps)

  pub ensure_dir-Keeps :
      (path : Text) (signal : Option AbortSignal)
      → Keeps closed_book (ensure_dir adapter config path signal)
  unfolding ensure_dir
  ensure_dir-Keeps path signal = search keeps_rules depth 10

  directory_handle-Keeps :
      (path : Text) (create recursive : Bool) (signal : Option AbortSignal)
      → Keeps closed_book (directory_handle adapter config path create recursive signal)
  unfolding directory_handle
  directory_handle-Keeps path create recursive signal = search keeps_rules depth 10

  pub get_directory_handle-Keeps :
      (path : Text) (create recursive : Bool) (signal : Option AbortSignal)
      → Keeps closed_book (get_directory_handle adapter config path create recursive signal)
  unfolding get_directory_handle
  get_directory_handle-Keeps path create recursive signal =
      search (keeps_rules, directory_handle-Keeps)

  file_handle-Keeps :
      (path : Text) (create parents : Bool) (signal : Option AbortSignal)
      → Keeps closed_book (file_handle adapter config path create parents signal)
  unfolding file_handle
  file_handle-Keeps path create parents signal = search keeps_rules depth 10

  pub get_file_handle-Keeps :
      (path : Text) (create parents : Bool) (signal : Option AbortSignal)
      → Keeps closed_book (get_file_handle adapter config path create parents signal)
  unfolding get_file_handle
  get_file_handle-Keeps path create parents signal = search (keeps_rules, file_handle-Keeps)

  pub ensure_file-Keeps :
      (path : Text) (signal : Option AbortSignal)
      → Keeps closed_book (ensure_file adapter config path signal)
  unfolding ensure_file
  ensure_file-Keeps path signal = search (keeps_rules, get_file_handle-Keeps)

  read_normal-Keeps :
      (path : Text) (options : ReadOptions)
      → Keeps closed_book (read_normal adapter config path options)
  unfolding read_normal
  read_normal-Keeps path options = search keeps_rules depth 10

  pub read_file-Keeps :
      (path : Text) (options : ReadOptions)
      → Keeps closed_book (read_file adapter config path options)
  unfolding read_file
  read_file-Keeps path options = search (keeps_rules, read_normal-Keeps)

  pub read_text-Keeps :
      (path : Text) (options : ReadOptions) (decoder : Bytes → Result Text)
      → Keeps closed_book (read_text adapter config path options decoder)
  unfolding read_text
  read_text-Keeps path options decoder = search (keeps_rules, read_file-Keeps)
