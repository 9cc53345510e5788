-- ===== src/FileSystem/Yields.antt =====
-- The entries that a walk yields.
use opfs.Prelude.{
  ℕ, zero, suc, ◌≤◌, ◌≡◌, refl, Option, none, some, Bool, true, false, ◌&&◌, ◌||◌, List, [], ◌∷◌,
  ◌++◌, Text, All, All-append, arith, if◌then◌else◌,
}
use opfs.Failure.{
  Result, ok, throw, Thrown, AbortSignal, ok-injective, throw_if_aborted, fail, type_mismatch,
}
use opfs.Exec.{lift, pure, continue, ◌>>=◌}
use opfs.Path.{normalize_path, basename, join_path}
use opfs.FileSystem.Operations.{stat, rethrow}
use opfs.Adapter.{Adapter, DirectoryEntry, Stat}
use opfs.FileSystem.{
  Facade, Config, Act, catch, on_store, FacadeStat, is_file_stat, is_directory_stat, assert_open,
}
use opfs.FileSystem.Iteration.{
  WalkEntry, WalkOptions, make_entry, make_entries, read_dir_at, walk_entry, walk_entries,
  walk_children, walk, within_depth, included, is_zero, yielded, is_directory_kind, root_entries,
  kind_of_stat,
}

abbrev Given : {A : Type 0} → (A → Type 0) → Result A → Type 0
Given P (ok a) = P a
Given P (throw e) = Unit

-- What an action returns has a property.
record Yields {S A : Type 0} (P : A → Type 0) (m : Act S A) : Type 0 where
  at : (f : Facade S) → Given P (m f).0

anything : {A : Type 0} (r : Result A) → Given (λ a. Unit {0}) r
anything (ok a) = tt
anything (throw e) = tt

module _ {S : Type 0} where
  after_then :
      {A B : Type 0} (P : A → Type 0) (Q : B → Type 0) (p : Result A × Facade S) (k : A → Act S B)
      → Given P p.0
      → ((a : A) → P a → Yields Q (k a))
      → Given Q (continue p k).0
  after_then P Q (ok a, g) k h n = (n a h).at g
  after_then P Q (throw e, g) k h n = tt

  Yields-then :
      {A B : Type 0} (P : A → Type 0) (Q : B → Type 0) (m : Act S A) (k : A → Act S B)
      → Yields P m
      → ((a : A) → P a → Yields Q (k a))
      → Yields Q (m >>= k)
  Yields-then P Q m k h n = record { at = λ f. after_then P Q (m f) k (h.at f) n }

  Yields-any :
      {A B : Type 0} (Q : B → Type 0) (m : Act S A) (k : A → Act S B)
      → ((a : A) → Yields Q (k a))
      → Yields Q (m >>= k)
  Yields-any Q m k n =
      Yields-then (λ a. Unit {0}) Q m k (record { at = λ f. anything (m f).0 }) λ a h. n a

  Yields-pure : {A : Type 0} (P : A → Type 0) (a : A) → P a → Yields {S = S} P (pure a)
  Yields-pure P a h = record { at = λ f. h }

  Yields-if :
      {A : Type 0} (P : A → Type 0) (t : Bool) (m n : Act S A)
      → (t ≡ true → Yields P m)
      → (t ≡ false → Yields P n)
      → Yields P (if t then m else n)
  Yields-if P true m n h k = h refl
  Yields-if P false m n h k = k refl

  abbrev caught : {A : Type 0} → Result A → Facade S → (Thrown → Act S A) → Result A × Facade S
  caught r g handler = elim r [ ok a ↦ (ok a, g) | throw e ↦ handler e g ]

  after_caught :
      {A : Type 0} (P : A → Type 0) (r : Result A) (g : Facade S) (handler : Thrown → Act S A)
      → Given P r
      → ((e : Thrown) → Yields P (handler e))
      → Given P (caught r g handler).0
  after_caught P (ok a) g handler h n = h
  after_caught P (throw e) g handler h n = (n e).at g

  Yields-catch :
      {A : Type 0} (P : A → Type 0) (m : Act S A) (handler : Thrown → Act S A)
      → Yields P m
      → ((e : Thrown) → Yields P (handler e))
      → Yields P (catch m handler)
  unfolding catch
  Yields-catch P m handler h n = record {
    at = λ f. after_caught P (m f).0 (m f).1 handler (h.at f) n;
  }

abbrev AtDepth : ℕ → WalkEntry → Type 0
AtDepth depth e = e.depth ≡ depth

abbrev Shallow : ℕ → Option ℕ → Type 0
Shallow depth none = Unit
Shallow depth (some n) = depth ≤ n

-- An entry of a kind that is asked for, not below the maximum depth.
pub record IsAsked (options : WalkOptions) (e : WalkEntry) : Type 0 where
  pub kind_asked : included options e.kind ≡ true
  pub depth_asked : Shallow e.depth options.max_depth

below_Shallow :
    (depth : ℕ) (most : Option ℕ) → within_depth depth most ≡ true → Shallow (suc depth) most
below_Shallow depth none h = tt
below_Shallow depth (some n) h = ground arith

Shallow-zero : (most : Option ℕ) → Shallow 0 most
Shallow-zero none = tt
Shallow-zero (some n) = omega arith

first_Shallow : (most : Option ℕ) → is_zero most ≡ false → Shallow 1 most
first_Shallow none h = tt
first_Shallow (some zero) h = cc
first_Shallow (some (suc n)) h = omega arith

module _ {S : Type 0} (adapter : Adapter S) (config : Config) where
  entries-Yields :
      (path : Text) (signal : Option AbortSignal) (depth : ℕ) (entries : List DirectoryEntry)
      → Yields (All (AtDepth depth)) (make_entries adapter config path signal depth entries)
  unfolding make_entries make_entry
  entries-Yields path signal depth [] = Yields-pure _ [] tt
  entries-Yields path signal depth (entry ∷ entries) =
      Yields-any _ (lift (throw_if_aborted signal "read-dir" (some path))) _ λ _.
        Yields-any _ (lift (join_path (path ∷ entry.name ∷ []))) _ λ child.
          Yields-then (All (AtDepth depth)) _
            (make_entries adapter config path signal depth entries) _
            (entries-Yields path signal depth entries)
            λ rest h.
              Yields-pure (All (AtDepth depth))
                (record { path = child; name = entry.name; kind = entry.kind; depth = depth }
                  ∷ rest)
                (refl, h)

  abbrev directory_only : Text → FacadeStat → Result (Unit {0})
  directory_only path found =
      if is_directory_stat (some found.stat)
      then ok tt
      else fail type_mismatch "read-dir" (some path)

  abbrev listed : ℕ → Text → Option AbortSignal → Act S (List WalkEntry)
  listed depth path signal = do
    entries ← on_store (adapter.read_dir path signal)
    make_entries adapter config path signal depth entries

  read_dir_at-Yields :
      (depth : ℕ) (path : Text) (signal : Option AbortSignal)
      → Yields (All (AtDepth depth)) (read_dir_at adapter config depth path signal)
  unfolding read_dir_at
  read_dir_at-Yields depth path signal = Yields-any _ assert_open _ λ _.
      Yields-any _ (lift (normalize_path path)) _ λ normal.
        Yields-any _ (stat adapter config normal signal) _ λ (found : FacadeStat).
          Yields-any _ (lift (directory_only normal found)) _ λ _.
            Yields-catch (All (AtDepth depth)) (listed depth normal signal)
              (rethrow "read-dir" normal)
              (Yields-any _ (on_store (adapter.read_dir normal signal)) _
                λ entries. entries-Yields normal signal depth entries)
              λ e. record { at = λ f. tt }

  yielded-IsAsked :
      (options : WalkOptions) (asked : Bool) (entry : WalkEntry) (rest : List WalkEntry)
      → included options entry.kind ≡ asked
      → Shallow entry.depth options.max_depth
      → All (IsAsked options) rest
      → All (IsAsked options) (yielded adapter config asked entry rest)
  yielded-IsAsked options true entry rest e s h = (record { kind_asked = e; depth_asked = s }, h)
  yielded-IsAsked options false entry rest e s h = h

  at_depth :
      (depth other : ℕ) (most : Option ℕ) → other ≡ depth → Shallow depth most → Shallow other most
  at_depth depth other none e s = tt
  at_depth depth other (some n) e s = omega arith

  both_true : (a b : Bool) → (a && b) ≡ true → b ≡ true
  both_true a b h = ground arith

  entry-Yields :
      (again : Text → Act S (List WalkEntry)) (deeper : Bool) (options : WalkOptions)
      (entry : WalkEntry) (following : Act S (List WalkEntry))
      → Shallow entry.depth options.max_depth
      → (deeper ≡ true → (path : Text) → Yields (All (IsAsked options)) (again path))
      → Yields (All (IsAsked options)) following
      → Yields
          (All (IsAsked options))
          (walk_entry adapter config again deeper options entry following)
  unfolding walk_entry
  entry-Yields again deeper options entry following s h n =
      Yields-then (All (IsAsked options)) (All (IsAsked options))
        (if is_directory_kind adapter config entry.kind && deeper
          then again entry.path
          else pure [])
        _
        (Yields-if (All (IsAsked options)) (is_directory_kind adapter config entry.kind && deeper) _
          _ (λ e. h (both_true (is_directory_kind adapter config entry.kind) deeper e) entry.path)
          λ e. Yields-pure (All (IsAsked options)) [] tt)
        λ below b.
          Yields-then (All (IsAsked options)) (All (IsAsked options)) following _ n λ rest r.
            Yields-pure (All (IsAsked options))
              (yielded adapter config (included options entry.kind) entry (below ++ rest))
              (yielded-IsAsked options (included options entry.kind) entry (below ++ rest) refl s
                (All-append (IsAsked options) below rest b r))

  walk_entries-Yields :
      (again : Text → Act S (List WalkEntry)) (deeper : Bool) (depth : ℕ) (options : WalkOptions)
      (entries : List WalkEntry)
      → Shallow depth options.max_depth
      → (deeper ≡ true → (path : Text) → Yields (All (IsAsked options)) (again path))
      → All (AtDepth depth) entries
      → Yields (All (IsAsked options)) (walk_entries adapter config again deeper options entries)
  unfolding walk_entries
  walk_entries-Yields again deeper depth options [] s h a = Yields-pure _ [] tt
  walk_entries-Yields again deeper depth options (entry ∷ entries) s h (e, a) =
      entry-Yields again deeper options entry _ (at_depth depth entry.depth options.max_depth e s) h
        (walk_entries-Yields again deeper depth options entries s h a)

  children-Yields :
      (fuel : ℕ) (options : WalkOptions) (depth : ℕ) (path : Text)
      → Shallow (suc depth) options.max_depth
      → Yields (All (IsAsked options)) (walk_children adapter config fuel options depth path)
  unfolding walk_children
  children-Yields zero options depth path s = record { at = λ f. tt }
  children-Yields (suc fuel) options depth path s =
      Yields-then (All (AtDepth (suc depth))) (All (IsAsked options))
        (read_dir_at adapter config (suc depth) path options.signal) _
        (read_dir_at-Yields (suc depth) path options.signal)
        λ entries a.
          walk_entries-Yields _ (within_depth (suc depth) options.max_depth) (suc depth) options
            entries s
            (λ e below.
              children-Yields fuel options (suc depth) below
                (below_Shallow (suc depth) options.max_depth e))
            a

  both_asked : (a b : Bool) → (a && b) ≡ true → b ≡ true
  both_asked a b h = ground arith

  either_IsAsked :
      (options : WalkOptions) (t : Bool) (e : WalkEntry)
      → (t ≡ true → IsAsked options e)
      → All (IsAsked options) (if t then e ∷ [] else [])
  either_IsAsked options true e h = (h refl, tt)
  either_IsAsked options false e h = tt

  root-IsAsked :
      (options : WalkOptions) (path name : Text) (found : Stat)
      → All (IsAsked options) (root_entries adapter config options path name found)
  root-IsAsked options path name found =
      either_IsAsked options (options.include_root && included options (kind_of_stat found)) _ λ e.
        record {
          kind_asked = both_asked options.include_root (included options (kind_of_stat found)) e;
          depth_asked = Shallow-zero options.max_depth;
        }

  not_zero : (t z : Bool) → (t || z) ≡ false → z ≡ false
  not_zero t z h = ground arith

  walk-Yields :
      (fuel : ℕ) (path : Text) (options : WalkOptions)
      → Yields (All (IsAsked options)) (walk adapter config fuel path options)
  unfolding walk
  walk-Yields fuel path options = Yields-any _ assert_open _ λ _.
      Yields-any _ (lift (normalize_path path)) _ λ root.
        Yields-any _ (stat adapter config root options.signal) _ λ (found : FacadeStat).
          Yields-any _ (lift (basename root)) _ λ name.
            Yields-then (All (IsAsked options)) (All (IsAsked options))
              (if is_file_stat (some found.stat) || is_zero options.max_depth
                then pure []
                else walk_children adapter config fuel options 0 root)
              _
              (Yields-if (All (IsAsked options))
                (is_file_stat (some found.stat) || is_zero options.max_depth) _ _
                (λ e. Yields-pure (All (IsAsked options)) [] tt)
                λ e. children-Yields fuel options 0 root (
                  first_Shallow options.max_depth
                    (not_zero (is_file_stat (some found.stat)) (is_zero options.max_depth) e)))
              λ below b.
                Yields-pure (All (IsAsked options))
                  (root_entries adapter config options root name found.stat ++ below)
                  (All-append (IsAsked options)
                    (root_entries adapter config options root name found.stat) below
                    (root-IsAsked options root name found.stat) b)

  asked :
      (P : List WalkEntry → Type 0) (r : Result (List WalkEntry)) (entries : List WalkEntry)
      → Given P r
      → r ≡ ok entries
      → P entries
  asked P (ok found) entries h e = rw (← ok-injective e) h
  asked P (throw x) entries h e = cc

  pub walk-IsAsked :
      (fuel : ℕ) (path : Text) (options : WalkOptions) (f : Facade S) (entries : List WalkEntry)
      → (walk adapter config fuel path options f).0 ≡ ok entries
      → All (IsAsked options) entries
  walk-IsAsked fuel path options f entries returned =
      asked (All (IsAsked options)) _ entries ((walk-Yields fuel path options).at f) returned
