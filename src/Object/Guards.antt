-- ===== src/Object/Guards.antt =====
-- Appends and updates under conditional writes send nothing but conditional puts.
use opfs.Prelude.{
  ℕ, ◌≡◌, ◌⊎◌, inl, inr, refl, ◌∙◌, sym, subst, Option, none, some, Bool, true, false, ◌&&◌, ◌||◌,
  List, [], ◌∷◌, Text, length, arith, if◌then◌else◌,
}
use opfs.Failure.{ok, fail, unknown, AbortSignal, throw_if_aborted}
use opfs.Bytes.{Bytes, apply_write}
use opfs.Exec.{pure, lift, ◌>>=◌, ◌>>◌}
use opfs.Adapter.{ReadOptions, WriteOptions, defined}
use opfs.Preserves.{Preserves, kept_after, Preserves-then, preserves_rules}
use opfs.Object.{ObjectStat, PutOptions, ObjectDriver, file_key}
use opfs.Object.Operations.{
  is_replace, lacks_tag, get_file_object, directory_below, get_directory, assert_no_directory,
  current_bytes, next_image, put_options, write_object,
}

-- A put with a precondition on the object that it replaces.
abbrev pub IsGuarded : PutOptions → Type 0
IsGuarded o = (defined o.if_match || o.if_none_match) ≡ true

-- Somewhere a lookup of the key answered with an empty tag.
abbrev pub HasEmptyTag : {S : Type 0} → ObjectDriver S → Text → Type 0
HasEmptyTag {S} driver key =
    (signal : Option AbortSignal) × (s : S) × (found : ObjectStat) × ((driver.head key signal s).0
      ≡ ok (some found))
    × (found.etag ≡ some [])

-- What is kept by the reads of a provider and by its puts with a precondition, and by puts without
-- one where a lookup of the key answers with an empty tag.
pub record Protects {S : Type 0} (driver : ObjectDriver S) (I : S → Type 0) : Type 0 where
  pub head_keeps :
      (key : Text) (signal : Option AbortSignal) (s : S) → I s → I (driver.head key signal s).1
  pub get_keeps :
      (key : Text) (options : ReadOptions) (s : S) → I s → I (driver.get key options s).1
  pub list_keeps :
      (key : Text) (limit : Option ℕ) (cursor : Option Text) (signal : Option AbortSignal) (s : S)
      → I s
      → I (driver.list key limit cursor signal s).1
  pub put_keeps :
      (key : Text) (body : List Bytes) (options : PutOptions) (s : S)
      → IsGuarded options ⊎ HasEmptyTag driver key
      → I s
      → I (driver.put key body options s).1

module _ {S : Type 0} (driver : ObjectDriver S) (prefix : Text) {I : S → Type 0}
    (protects : Protects driver I) where
  head_Preserves : (key : Text) (signal : Option AbortSignal) → Preserves I (driver.head key signal)
  head_Preserves key signal = record { at = protects.head_keeps key signal }

  get_Preserves : (key : Text) (options : ReadOptions) → Preserves I (driver.get key options)
  get_Preserves key options = record { at = protects.get_keeps key options }

  list_Preserves :
      (key : Text) (limit : Option ℕ) (cursor : Option Text) (signal : Option AbortSignal)
      → Preserves I (driver.list key limit cursor signal)
  list_Preserves key limit cursor signal = record {
    at = protects.list_keeps key limit cursor signal;
  }

  below_Preserves :
      (key : Text) (signal : Option AbortSignal)
      → Preserves I (directory_below driver prefix key signal)
  unfolding directory_below
  below_Preserves key signal = search (preserves_rules, head_Preserves, list_Preserves)

  directory_Preserves :
      (path : Text) (signal : Option AbortSignal)
      → Preserves I (get_directory driver prefix path signal)
  unfolding get_directory
  directory_Preserves path signal = search (preserves_rules, below_Preserves)

  refusal_Preserves :
      (path : Text) (signal : Option AbortSignal) (previous : Option ObjectStat)
      → Preserves I (assert_no_directory driver prefix path signal previous)
  unfolding assert_no_directory
  refusal_Preserves path signal (some s) = search preserves_rules
  refusal_Preserves path signal none = search (preserves_rules, directory_Preserves)

  current_Preserves :
      (path : Text) (signal : Option AbortSignal) (previous : Option ObjectStat)
      → Preserves I (current_bytes driver prefix path signal previous)
  current_Preserves path signal none = search preserves_rules
  current_Preserves path signal (some s) = search (preserves_rules, get_Preserves)

  -- What the lookup of a file answered.
  record Found (path : Text) (previous : Option ObjectStat) : Type 0 where
    signal : Option AbortSignal
    at : S
    answered : (driver.head (file_key prefix path) signal at).0 ≡ ok previous

  abbrev IsAllowed : Text → PutOptions → Type 0
  IsAllowed path o = IsGuarded o ⊎ HasEmptyTag driver (file_key prefix path)

  tagged_IsAllowed :
      (path : Text) (options : WriteOptions) (found : ObjectStat) (n : ℕ) (etag : Option Text)
      → found.etag ≡ etag
      → driver.capabilities.conditional_write ≡ true
      → lacks_tag (some found) ≡ false
      → Found path (some found)
      → IsAllowed path (put_options driver prefix options (some found) n)
  tagged_IsAllowed path options found n none e c l f =
      let lacking : lacks_tag (some found) ≡ true = rw e refl in
      absurd (true_false (sym lacking ∙ l))
    where
      true_false : ¬ (true ≡ false)
      true_false x = cc
  tagged_IsAllowed path options found n (some []) e c l f =
      inr (f.signal, f.at, found, f.answered, e)
  tagged_IsAllowed path options found n (some (x ∷ tag)) e c l f = inl (rw (c, e) refl)

  options-IsAllowed :
      (path : Text) (options : WriteOptions) (previous : Option ObjectStat) (n : ℕ)
      → driver.capabilities.conditional_write ≡ true
      → is_replace options.mode ≡ false
      → Found path previous
      → lacks_tag previous ≡ false
      → IsAllowed path (put_options driver prefix options previous n)
  options-IsAllowed path options none n c r t l = inl (rw (c, r) refl)
  options-IsAllowed path options (some found) n c r t l =
      tagged_IsAllowed path options found n found.etag refl c l t

  -- The put that follows the check of the tag.
  checked_put :
      (untagged : Bool) (path : Text) (bytes : Bytes) (options : WriteOptions)
      (previous : Option ObjectStat)
      → (untagged ≡ false → (n : ℕ) → IsAllowed path (put_options driver prefix options previous n))
      → Preserves I (
          (do
            lift (if untagged then fail {A = Unit {0}} unknown "write" (some path) else ok tt)
            current ← current_bytes driver prefix path options.signal previous
            pure (apply_write current bytes options.mode options.at options.truncate))
          >>= λ next.
              driver.put
                (file_key prefix path)
                (next ∷ [])
                (put_options driver prefix options previous (length next)))
  checked_put true path bytes options previous h = record { at = λ s i. i }
  checked_put false path bytes options previous h =
      Preserves-then
        (do
          current ← current_bytes driver prefix path options.signal previous
          pure (apply_write current bytes options.mode options.at options.truncate))
        _ (search (preserves_rules, current_Preserves))
        λ next. record { at = λ s i. protects.put_keeps _ _ _ s (h refl (length next)) i }

  and_false : (a b : Bool) → a ≡ true → (a && b) ≡ false → b ≡ false
  and_false a b h k = ground arith

  tail_Preserves :
      (path : Text) (bytes : Bytes) (options : WriteOptions) (previous : Option ObjectStat)
      → driver.capabilities.conditional_write ≡ true
      → is_replace options.mode ≡ false
      → Found path previous
      → Preserves I (
          next_image driver prefix path bytes options previous >>= λ next.
          driver.put
            (file_key prefix path)
            (next ∷ [])
            (put_options driver prefix options previous (length next)))
  unfolding next_image
  tail_Preserves path bytes options previous c r t =
      subst
        (λ replaced. Preserves I (
          (if replaced then pure bytes else (do
            lift (
                if driver.capabilities.conditional_write && lacks_tag previous
                then fail {A = Unit {0}} unknown "write" (some path)
                else ok tt)
            current ← current_bytes driver prefix path options.signal previous
            pure (apply_write current bytes options.mode options.at options.truncate)))
          >>= λ next.
              driver.put (file_key prefix path) (next ∷ [])
                (put_options driver prefix options previous (length next))))
        (sym r)
        (checked_put (driver.capabilities.conditional_write && lacks_tag previous) path bytes
          options previous
          λ e n.
            options-IsAllowed path options previous n c r t
              (and_false driver.capabilities.conditional_write (lacks_tag previous) c e))

  checked_write_Preserves :
      (path : Text) (bytes : Bytes) (options : WriteOptions) (previous : Option ObjectStat)
      → driver.capabilities.conditional_write ≡ true
      → is_replace options.mode ≡ false
      → Found path previous
      → Preserves I (
          assert_no_directory driver prefix path options.signal previous >>= λ _.
          next_image driver prefix path bytes options previous >>= λ next.
          driver.put
            (file_key prefix path)
            (next ∷ [])
            (put_options driver prefix options previous (length next)))
  checked_write_Preserves path bytes options previous c r t =
      Preserves-then (assert_no_directory driver prefix path options.signal previous) _
        (refusal_Preserves path options.signal previous)
        λ _. tail_Preserves path bytes options previous c r t

  pub write_object-Protects :
      (path : Text) (bytes : Bytes) (options : WriteOptions) (s : S)
      → driver.capabilities.conditional_write ≡ true
      → is_replace options.mode ≡ false
      → I s
      → I (write_object driver prefix path bytes options s).1
  unfolding write_object get_file_object
  write_object-Protects path bytes options s c r i =
      kept_after (lift (throw_if_aborted options.signal "write" (some path)) s) _ i λ _ _. record {
        at = λ t j.
            kept_after (driver.head (file_key prefix path) options.signal t) _
              (protects.head_keeps (file_key prefix path) options.signal t j)
              λ previous e.
                checked_write_Preserves path bytes options previous c r
                  (record { signal = options.signal; at = t; answered = e });
      }
