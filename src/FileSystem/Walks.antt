-- ===== src/FileSystem/Walks.antt =====
-- What a walk yields, how deep it goes, and calls after the facade is closed.
use opfs.Prelude.{
  ℕ, zero, suc, ◌+◌, ◌≤◌, ◌<◌, ◌≡◌, refl, ap, ◌∙◌, sym, fun_ext, some, Bool, true, false, ◌&&◌,
  ◌||◌, List, [], ◌∷◌, ◌++◌, Text, ltb, arith, if◌then◌else◌,
}
use opfs.Exec.{lift, pure, ◌>>=◌}
use opfs.Adapter.{Adapter}
use opfs.FileSystem.{Config, Act, FacadeStat, assert_open, is_file_stat}
use opfs.FileSystem.Operations.{stat}
use opfs.Path.{normalize_path, basename}
use opfs.FileSystem.Iteration.{
  WalkEntry, WalkOptions, read_dir_at, walk_entry, walk_entries, walk_children, walk, within_depth,
  included, is_zero, yielded, is_directory_kind, root_entries,
}

module _ {S : Type 0} (adapter : Adapter S) (config : Config) where
  no_descent : {A : Type 0} (b : Bool) (x y : A) → (if b && false then x else y) ≡ y
  no_descent true x y = refl
  no_descent false x y = refl

  -- An entry whose directory is not entered.
  shallow_entry :
      (again : Text → Act S (List WalkEntry)) (options : WalkOptions) (entry : WalkEntry)
      (following : Act S (List WalkEntry))
      → walk_entry adapter config again false options entry following ≡ (do
        rest ← following
        pure (yielded adapter config (included options entry.kind) entry rest))
  unfolding walk_entry
  shallow_entry again options (entry) following =
      ap
        (λ m. m >>= λ below. do
          rest ← following
          pure (yielded adapter config (included options entry.kind) entry (below ++ rest)))
        (no_descent (is_directory_kind adapter config entry.kind) (again entry.path) (pure []))

  -- The walk below is not asked where the entries are deep enough.
  stop_here :
      (first second : Text → Act S (List WalkEntry)) (options : WalkOptions)
      (entries : List WalkEntry)
      → walk_entries adapter config first false options entries
        ≡ walk_entries adapter config second false options entries
  unfolding walk_entries
  stop_here first second options [] = refl
  stop_here first second options (entry ∷ entries) =
      ap (walk_entry adapter config first false options entry)
        (stop_here first second options entries)
      ∙ shallow_entry first options entry _
      ∙ sym (shallow_entry second options entry _)

  step_equal :
      (deeper : Bool) (first second : Text → Act S (List WalkEntry)) (options : WalkOptions)
      (entries : List WalkEntry)
      → (deeper ≡ true → first ≡ second)
      → walk_entries adapter config first deeper options entries
        ≡ walk_entries adapter config second deeper options entries
  step_equal true first second options entries h =
      ap (λ again. walk_entries adapter config again true options entries) (h refl)
  step_equal false first second options entries h = stop_here first second options entries

  still_below : (depth n : ℕ) → ltb depth n ≡ true → depth < n
  still_below depth n h = ground arith

  -- Below a finite maximum, two fuels that reach it walk alike.
  children_alike :
      (fuel other depth n : ℕ) (options : WalkOptions)
      → options.max_depth ≡ some n
      → depth < n
      → n ≤ depth + fuel
      → n ≤ depth + other
      → walk_children adapter config fuel options depth
        ≡ walk_children adapter config other options depth
  unfolding walk_children
  children_alike zero other depth n options e l h k = absurd (omega arith)
  children_alike (suc fuel) zero depth n options e l h k = absurd (omega arith)
  children_alike (suc fuel) (suc other) depth n options e l h k = fun_ext λ path.
      ap (λ next. read_dir_at adapter config (suc depth) path options.signal >>= next)
        (fun_ext λ entries.
          step_equal (within_depth (suc depth) options.max_depth) _ _ options entries λ deeper.
            children_alike fuel other (suc depth) n options e
              (still_below (suc depth) n (sym (ap (within_depth (suc depth)) e) ∙ deeper))
              (omega arith) (omega arith))

  start_alike :
      (fuel n : ℕ) (options : WalkOptions) (root : Text)
      → options.max_depth ≡ some n
      → n ≤ fuel
      → (is_zero options.max_depth ≡ false)
      → walk_children adapter config fuel options 0 root
        ≡ walk_children adapter config n options 0 root
  start_alike fuel zero options root e h z = absurd (zero_differs z)
    where
      zero_differs : ¬ (is_zero options.max_depth ≡ false)
      zero_differs q = cc
  start_alike fuel (suc n) options root e h z =
      ap (λ f. f root)
        (children_alike fuel (suc n) 0 (suc n) options e (omega arith) (omega arith) (omega arith))

  same_choice :
      {A : Type 0} (t z : Bool) (p x y : A)
      → (z ≡ false → x ≡ y)
      → (if t || z then p else x) ≡ (if t || z then p else y)
  same_choice true z p x y h = refl
  same_choice false true p x y h = refl
  same_choice false false p x y h = h refl

  -- A walk with a finite maximum depth ends by itself: any fuel that reaches the maximum gives the
  -- result of the fuel that equals it, on every facade, so that the fuel is never what ends it.
  pub walk-fuel :
      (fuel n : ℕ) (path : Text) (options : WalkOptions)
      → options.max_depth ≡ some n
      → n ≤ fuel
      → walk adapter config fuel path options ≡ walk adapter config n path options
  unfolding walk
  walk-fuel fuel n path options e h =
      ap
        (λ below_root. assert_open >>= λ _. lift (normalize_path path) >>= λ root.
          stat adapter config root options.signal >>= λ found. lift (basename root) >>= λ name.
          below_root root found >>= λ below.
          pure (root_entries adapter config options root name found.stat ++ below))
        (fun_ext λ root. fun_ext λ (found : FacadeStat).
          same_choice (is_file_stat (some found.stat)) (is_zero options.max_depth) (pure []) _ _
            (start_alike fuel n options root e h))
