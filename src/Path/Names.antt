-- ===== src/Path/Names.antt =====
-- Entry names: `dirname`, `basename`, `joinPath` and `validateName` agree on them.
use opfs.Prelude.{
  ◌≡◌, ◌≢◌, refl, ap, ◌↔◌, List, [], ◌∷◌, ◌++◌, Text, All, All-append, arith, ◌∙◌, sym,
  append_assoc, subst,
}
use opfs.Failure.{Result, ok, ◌>>=◌, >>=-eq-ok, ok-injective}
use opfs.Path.{
  slash, root_path, split, join, to_path, drop_last, last_or_empty, normalize_path,
  split_normalized, split_path, join_path, dirname, basename, validate_name, includes, backslash,
}
use opfs.Path.Segments.{Lacks, IsSegment, IsSegment-of_valid, valid_of_IsSegment, split_of_Lacks}
use opfs.Path.Normal.{resolve_parts_of_IsSegment}
use opfs.Path.Canonical.{
  normalize_path-IsCanonical, normalize_path-to_path, split_normalized-to_path, resolve_parts-root,
  normalize_path_of_parts,
}

drop_last-append : (ps : List Text) (p : Text) → drop_last (ps ++ p ∷ []) ≡ ps
drop_last-append [] p = refl
drop_last-append (x ∷ []) p = refl
drop_last-append (x ∷ y ∷ ps) p = ap (◌∷◌ x) (drop_last-append (y ∷ ps) p)

last_or_empty-append : (ps : List Text) (p : Text) → last_or_empty (ps ++ p ∷ []) ≡ p
last_or_empty-append [] p = refl
last_or_empty-append (x ∷ []) p = refl
last_or_empty-append (x ∷ y ∷ ps) p = last_or_empty-append (y ∷ ps) p

pub join-append :
    (p : Text) (ps : List Text) (q : Text)
    → join slash ((p ∷ ps) ++ q ∷ []) ≡ join slash (p ∷ ps) ++ slash ∷ q
unfolding join
join-append p [] q = refl
join-append p (x ∷ ps) q =
    rw (join-append x ps q) (sym (append_assoc p (slash ∷ join slash (x ∷ ps)) (slash ∷ q)))

-- A doubled slash at the root is dropped.
normalize_path-doubled :
    (p : Text) → IsSegment p → normalize_path (slash ∷ slash ∷ p) ≡ ok (to_path (p ∷ []))
normalize_path-doubled p h =
    let path = slash ∷ slash ∷ p in
    let pieces : split slash path ≡ [] ∷ [] ∷ p ∷ [] =
      unfold split in ground (arith, split_of_Lacks slash p h.no_slash) in
    let nul : Lacks 0 path = unfold includes in h.no_nul in
    let back : Lacks backslash path = unfold includes in h.no_backslash in
    normalize_path_of_parts path (p ∷ []) nul back (
      rw pieces (
        resolve_parts-root path ([] ∷ p ∷ [])
        ∙ resolve_parts-root path (p ∷ [])
        ∙ resolve_parts_of_IsSegment path [] (p ∷ []) (h, tt)))

joined_pair : (s p : Text) → join slash (s ∷ p ∷ []) ≡ s ++ slash ∷ p
unfolding join
joined_pair s p = refl

joined :
    (x : Text) (ps : List Text) (p : Text)
    → join slash (to_path (x ∷ ps) ∷ p ∷ []) ≡ to_path ((x ∷ ps) ++ p ∷ [])
unfolding to_path
joined x ps p =
    joined_pair (slash ∷ join slash (x ∷ ps)) p ∙ ap (◌∷◌ slash) (sym (join-append x ps p))

-- `joinPath` of a canonical directory path and a valid entry name is the entry's canonical path.
pub join_path-child :
    (ps : List Text) (p : Text)
    → All IsSegment ps
    → IsSegment p
    → join_path (to_path ps ∷ p ∷ []) ≡ ok (to_path (ps ++ p ∷ []))
join_path-child [] p h k =
    let doubled = normalize_path-doubled p k in unfold join_path join to_path in doubled
join_path-child (x ∷ ps) p h k =
    let e : join slash (to_path (x ∷ ps) ∷ p ∷ []) ≡ to_path ((x ∷ ps) ++ p ∷ []) = joined x ps p in
    unfold join_path in
    (ap normalize_path e
      ∙ normalize_path-to_path ((x ∷ ps) ++ p ∷ [])
          (All-append IsSegment (x ∷ ps) (p ∷ []) h (k, tt)))

-- A list that is not empty has a last member.
snoc-cases :
    (p : Text) (ps : List Text)
    → (front : List Text) × (last : Text) × (p ∷ ps ≡ front ++ last ∷ [])
snoc-cases p [] = ([], p, refl)
snoc-cases p (q ∷ ps) = let (front, last, e) = snoc-cases q ps in (p ∷ front, last, ap (◌∷◌ p) e)

All-of_append :
    (ps : List Text) (p : Text) → All IsSegment (ps ++ p ∷ []) → All IsSegment ps × IsSegment p
All-of_append [] p h = (tt, h.0)
All-of_append (x ∷ ps) p h = let (a, b) = All-of_append ps p h.1 in ((h.0, a), b)

split_path_of_normal :
    (path : Text) (parts : List Text)
    → normalize_path path ≡ ok (to_path parts)
    → All IsSegment parts
    → split_path path ≡ ok parts
unfolding split_path
split_path_of_normal path parts e h = rw e (ap ok (split_normalized-to_path parts h))

dirname_of_parts :
    (path : Text) (front : List Text) (last : Text)
    → split_path path ≡ ok (front ++ last ∷ [])
    → dirname path ≡ ok (to_path front)
unfolding dirname
dirname_of_parts path front last e = rw (e, drop_last-append front last) refl

basename_of_parts :
    (path : Text) (front : List Text) (last : Text)
    → split_path path ≡ ok (front ++ last ∷ [])
    → basename path ≡ ok last
unfolding basename
basename_of_parts path front last e = rw (e, last_or_empty-append front last) refl

-- `joinPath(dirname(path), basename(path))`.
abbrev pub rejoined : Text → Result Text
rejoined path = do d ← dirname path; b ← basename path; join_path (d ∷ b ∷ [])

rejoined_of_parts :
    (path : Text) (parts : List Text)
    → normalize_path path ≡ ok (to_path parts)
    → All IsSegment parts
    → to_path parts ≢ root_path
    → rejoined path ≡ ok (to_path parts)
rejoined_of_parts path [] e h no_root = absurd (no_root (unfold to_path in refl))
rejoined_of_parts path (p ∷ ps) e h no_root =
    let (front, last, s) = snoc-cases p ps in
    let (a, b) = All-of_append front last (subst (All IsSegment) s h) in
    let pieces = split_path_of_normal path (p ∷ ps) e h ∙ ap ok s in
    rw (dirname_of_parts path front last pieces, basename_of_parts path front last pieces)
      (join_path-child front last a b ∙ ap (λ t. ok (to_path t)) (sym s))

-- Unless it normalises to the root, a path that can be normalised has a parent and an entry name that
-- join to it, normalised.
pub rejoined-eq-normalize_path :
    (path q : Text) → normalize_path path ≡ ok q → q ≢ root_path → rejoined path ≡ ok q
rejoined-eq-normalize_path path q e no_root =
    let (parts, h, r) = normalize_path-IsCanonical path q e in
    rejoined_of_parts path parts (e ∙ ap ok r) h (λ z. no_root (r ∙ z)) ∙ ap ok (sym r)

single_entry : (n : Text) → IsSegment n → split_path n ≡ ok (n ∷ [])
single_entry n h =
    split_path_of_normal n (n ∷ [])
      (normalize_path_of_parts n (n ∷ []) h.no_nul h.no_backslash
        (rw (split_of_Lacks slash n h.no_slash) (resolve_parts_of_IsSegment n [] (n ∷ []) (h, tt))))
      (h, tt)

-- Success of `splitPath` gives segments.
pub split_path-IsSegment :
    (path : Text) (parts : List Text) → split_path path ≡ ok parts → All IsSegment parts
unfolding split_path
split_path-IsSegment path parts e =
    let (q, n, f) = >>=-eq-ok (normalize_path path) _ e in
    let (ps, h, r) = normalize_path-IsCanonical path q n in
    subst (All IsSegment)
      (sym (split_normalized-to_path ps h) ∙ ap split_normalized (sym r) ∙ ok-injective f) h

-- `validateName` accepts a text exactly if, read as a path, it is that one entry.
pub validate_name_iff : (n : Text) → (validate_name n ≡ ok n) ↔ (split_path n ≡ ok (n ∷ []))
validate_name_iff n = (
  (λ h. single_entry n (IsSegment-of_valid n (unfold validate_name in ground arith))),
  (λ e.
      let valid = valid_of_IsSegment n (split_path-IsSegment n (n ∷ []) e).0 in
      unfold validate_name in rw valid refl),
)
