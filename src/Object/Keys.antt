-- ===== src/Object/Keys.antt =====
-- The keys of files and directories, and the names that a listing reads back from them.
use opfs.Prelude.{
  ◌≡◌, refl, ap, ◌∙◌, sym, subst, some, true, false, List, [], ◌∷◌, ◌++◌, append_assoc, Text, same,
  All, All-append, length, drop, arith,
}
use opfs.Failure.{ok, ok-injective}
use opfs.Path.{slash, root_path, includes, join, to_path, normalize_path, join_path, is_valid_name}
use opfs.Path.Segments.{Lacks, IsSegment, IsSegment-of_valid}
use opfs.Path.Canonical.{normalize_path-IsCanonical, join-not_empty}
use opfs.Path.Names.{join-append, join_path-child}
use opfs.Path.Ancestor.{starts_with_append}
use opfs.Object.{strip_last, file_key, directory_key, direct_name, child_name}

drop_append {ℓ} : {A : Type ℓ} (xs ys : List A) → drop (length xs) (xs ++ ys) ≡ ys
drop_append [] ys = refl
drop_append (x ∷ xs) ys = drop_append xs ys

strip_last_of_Lacks : (s : Text) → Lacks slash s → strip_last s ≡ s
unfolding strip_last includes same
strip_last_of_Lacks [] h = refl
strip_last_of_Lacks (c ∷ []) h = ground arith
strip_last_of_Lacks (c ∷ d ∷ s) h =
    ap (λ t. c ∷ t) (strip_last_of_Lacks (d ∷ s) (unfold includes in ground arith))

strip_last-slash : (s : Text) → strip_last (s ++ slash ∷ []) ≡ s
unfolding strip_last same
strip_last-slash [] = refl
strip_last-slash (c ∷ []) = refl
strip_last-slash (c ∷ d ∷ s) = ap (λ t. c ∷ t) (strip_last-slash (d ∷ s))

direct_name_of_IsSegment : (name : Text) → IsSegment name → direct_name name ≡ some name
unfolding same
direct_name_of_IsSegment [] h = absurd (ground (arith, h.not_empty))
direct_name_of_IsSegment (c ∷ s) h = rw h.no_slash refl

-- What follows the parent's key, up to a slash at the end, is the name.
name_of_key :
    (parent_key rest name : Text)
    → strip_last rest ≡ name
    → IsSegment name
    → child_name parent_key (parent_key ++ rest) ≡ some name
unfolding child_name
name_of_key parent_key rest name e h =
    rw (starts_with_append parent_key rest, drop_append parent_key rest, e)
      (direct_name_of_IsSegment name h)

-- The key of a child continues the key of its directory.
child_key :
    (prefix : Text) (ps : List Text) (name : Text)
    → All IsSegment ps
    → file_key prefix (to_path (ps ++ name ∷ [])) ≡ directory_key prefix (to_path ps) ++ name
unfolding file_key directory_key to_path
child_key prefix [] name h = unfold join same in refl
child_key prefix (p ∷ ps) name h =
    let not_root : same (slash ∷ join slash (p ∷ ps)) root_path ≡ false =
      unfold same in join-not_empty p ps h.0 in
    rw (not_root, join-append p ps name)
      (ap (λ t. prefix ++ t) (sym (append_assoc (join slash (p ∷ ps)) (slash ∷ []) name))
        ∙ sym (append_assoc prefix (join slash (p ∷ ps) ++ slash ∷ []) name)
        ∙ ap (λ t. t ++ name) (sym (append_assoc prefix (join slash (p ∷ ps)) (slash ∷ []))))

-- The marker of a child directory continues the key of its directory.
child_marker :
    (prefix : Text) (ps : List Text) (name : Text)
    → All IsSegment (ps ++ name ∷ [])
    → directory_key prefix (to_path (ps ++ name ∷ []))
      ≡ file_key prefix (to_path (ps ++ name ∷ [])) ++ slash ∷ []
unfolding directory_key to_path
child_marker prefix [] name h =
    let not_root : same (slash ∷ join slash (name ∷ [])) root_path ≡ false =
      unfold same in join-not_empty name [] h.0 in
    rw not_root refl
child_marker prefix (p ∷ ps) name h =
    let not_root : same (slash ∷ join slash ((p ∷ ps) ++ name ∷ [])) root_path ≡ false =
      unfold same in join-not_empty p (ps ++ name ∷ []) h.0 in
    rw not_root refl

-- Both keys of an entry, read back as the name of the entry.
abbrev pub IsReadBack : Text → Text → Text → Text → Type 0
IsReadBack prefix path child name =
    (child_name (directory_key prefix path) (file_key prefix child) ≡ some name)
    × (child_name (directory_key prefix path) (directory_key prefix child) ≡ some name)

parts-IsReadBack :
    (prefix : Text) (ps : List Text) (name : Text)
    → All IsSegment ps
    → IsSegment name
    → IsReadBack prefix (to_path ps) (to_path (ps ++ name ∷ [])) name
parts-IsReadBack prefix ps name h k = (
  ap (child_name (directory_key prefix (to_path ps))) (child_key prefix ps name h)
      ∙ name_of_key (directory_key prefix (to_path ps)) name name
          (strip_last_of_Lacks name k.no_slash) k,
  ap (child_name (directory_key prefix (to_path ps))) (
        child_marker prefix ps name (All-append IsSegment ps (name ∷ []) h (k, tt))
        ∙ ap (λ t. t ++ slash ∷ []) (child_key prefix ps name h)
        ∙ append_assoc (directory_key prefix (to_path ps)) name (slash ∷ []))
      ∙ name_of_key (directory_key prefix (to_path ps)) (name ++ slash ∷ []) name
          (strip_last-slash name) k,
)

-- Under any prefix, the object key of a file and the marker key of a directory lie below the key of the
-- directory that they are in, and a listing reads the entry's name back from each of them: for a
-- path that normalises to itself, a valid name, and the child that `joinPath` makes of them.
pub child_name-file_key :
    (prefix path name child : Text)
    → normalize_path path ≡ ok path
    → is_valid_name name ≡ true
    → join_path (path ∷ name ∷ []) ≡ ok child
    → IsReadBack prefix path child name
child_name-file_key prefix path name child normal valid joined =
    let (ps, h, e) = normalize_path-IsCanonical path path normal in
    let k = IsSegment-of_valid name valid in
    let c : to_path (ps ++ name ∷ []) ≡ child =
      ok-injective (
        sym (join_path-child ps name h k) ∙ ap (λ p. join_path (p ∷ name ∷ [])) (sym e) ∙ joined) in
    subst (λ q. IsReadBack prefix path q name) c
      (subst (λ p. IsReadBack prefix p (to_path (ps ++ name ∷ [])) name) (sym e)
        (parts-IsReadBack prefix ps name h k))
