-- ===== src/Path/Canonical.antt =====
-- `normalizePath` returns canonical paths: the root, or segments that each follow a slash. It
-- returns those unchanged, and `splitPath` reads the segments back.
use opfs.Prelude.{
  ℕ, ◌≡◌, refl, ap, false, List, [], ◌∷◌, Text, same, ◌==◌, All, arith, Bool-cases, inl, inr, ◌∙◌,
  sym,
}
use opfs.Failure.{ok, ◌>>=◌, >>=-eq-ok, ok-injective}
use opfs.Path.{
  slash, backslash, root_path, includes, split, join, to_path, resolve_part, resolve_parts,
  normalize_path, split_normalized, split_path,
}
use opfs.Path.Segments.{
  Lacks, IsSegment, split-join, split-append_sep, All-split, All-split_sep, includes-append,
}
use opfs.Path.Normal.{resolve_parts-All, resolve_parts_of_IsSegment, All-×}

-- A canonical path is the rendering of a list of segments.
abbrev pub IsCanonical : Text → Type 0
IsCanonical q = (parts : List Text) × All IsSegment parts × (q ≡ to_path parts)

-- Success of `normalizePath`, taken apart.
normalize_path-eq-ok :
    (path q : Text)
    → normalize_path path ≡ ok q
    → (Lacks 0 path)
      × (Lacks backslash path)
      × ((parts : List Text) × (resolve_parts path [] (split slash path) ≡ ok parts)
          × (q ≡ to_path parts))
unfolding normalize_path
normalize_path-eq-ok path q h = elim (Bool-cases (includes 0 path)) [
  | inl bad ↦ absurd (ground arith)
  | inr nul ↦ elim (Bool-cases (includes backslash path)) [
    | inl bad ↦ absurd (ground arith)
    | inr back ↦
        let resolved : (resolve_parts path [] (split slash path) >>= λ parts. ok (to_path parts))
            ≡ ok q =
          ground arith in
        let (parts, e, f) = >>=-eq-ok (resolve_parts path [] (split slash path)) _ resolved in
        (nul, back, (parts, e, sym (ok-injective f)))
  ]
]

-- Whatever the input, a path that `normalizePath` returns is canonical.
pub normalize_path-IsCanonical : (path q : Text) → normalize_path path ≡ ok q → IsCanonical q
normalize_path-IsCanonical path q h =
    let (nul, back, rest) = normalize_path-eq-ok path q h in
    let (parts, e, same_q) = rest in
    (
      parts,
      resolve_parts-All path [] (split slash path) parts tt
          (All-× (split slash path) (All-split_sep slash path) (All-split backslash slash path back)
            (All-split 0 slash path nul))
          e,
      same_q,
    )

join-Lacks :
    (c : ℕ) (p : Text) (ps : List Text)
    → (c == slash) ≡ false
    → All (Lacks c) (p ∷ ps)
    → Lacks c (join slash (p ∷ ps))
unfolding join includes
join-Lacks c p [] d h = h.0
join-Lacks c p (q ∷ ps) d h =
    ground (arith, includes-append c p (slash ∷ join slash (q ∷ ps)), join-Lacks c q ps d h.1)

pub Lacks-of_IsSegment :
    (ps : List Text)
    → All IsSegment ps
    → All (Lacks slash) ps × All (Lacks backslash) ps × All (Lacks 0) ps
Lacks-of_IsSegment [] h = (tt, tt, tt)
Lacks-of_IsSegment (p ∷ ps) h =
    let (a, b, c) = Lacks-of_IsSegment ps h.1 in
    ((h.0.no_slash, a), (h.0.no_backslash, b), (h.0.no_nul, c))

pub to_path-Lacks :
    (c : ℕ) (p : Text) (ps : List Text)
    → (slash == c) ≡ false
    → All (Lacks c) (p ∷ ps)
    → Lacks c (to_path (p ∷ ps))
unfolding to_path includes
to_path-Lacks c p ps d h = ground (arith, join-Lacks c p ps (ground arith) h)

pub split-to_path :
    (p : Text) (ps : List Text)
    → All IsSegment (p ∷ ps)
    → split slash (to_path (p ∷ ps)) ≡ [] ∷ p ∷ ps
unfolding to_path
split-to_path p ps h =
    split-append_sep slash [] (join slash (p ∷ ps)) (unfold includes in refl)
    ∙ ap (◌∷◌ []) (split-join slash p ps (Lacks-of_IsSegment (p ∷ ps) h).0)

pub resolve_parts-root :
    (path : Text) (parts : List Text)
    → resolve_parts path [] ([] ∷ parts) ≡ resolve_parts path [] parts
unfolding resolve_parts resolve_part same
resolve_parts-root path parts = refl

-- The converse of `normalize_path-eq-ok`.
pub normalize_path_of_parts :
    (path : Text) (parts : List Text)
    → Lacks 0 path
    → Lacks backslash path
    → resolve_parts path [] (split slash path) ≡ ok parts
    → normalize_path path ≡ ok (to_path parts)
unfolding normalize_path
normalize_path_of_parts path parts nul back resolved = rw (nul, back, resolved) refl

-- Normalising the rendering of segments returns it.
pub normalize_path-to_path :
    (ps : List Text) → All IsSegment ps → normalize_path (to_path ps) ≡ ok (to_path ps)
normalize_path-to_path [] h =
    unfold normalize_path includes split resolve_parts resolve_part same to_path in refl
normalize_path-to_path (p ∷ ps) h =
    let (no_slash, no_backslash, no_nul) = Lacks-of_IsSegment (p ∷ ps) h in
    let path = to_path (p ∷ ps) in
    let nul : Lacks 0 path = to_path-Lacks 0 p ps refl no_nul in
    let back : Lacks backslash path = to_path-Lacks backslash p ps refl no_backslash in
    let resolved : resolve_parts path [] (split slash path) ≡ ok (p ∷ ps) =
      rw (split-to_path p ps h)
        (resolve_parts-root path (p ∷ ps) ∙ resolve_parts_of_IsSegment path [] (p ∷ ps) h) in
    unfold normalize_path in rw (nul, back, resolved) refl

pub join-not_empty :
    (p : Text) (ps : List Text) → IsSegment p → same (join slash (p ∷ ps)) [] ≡ false
unfolding join same
join-not_empty [] ps h = absurd (ground (arith, h.not_empty))
join-not_empty (c ∷ p) [] h = refl
join-not_empty (c ∷ p) (q ∷ ps) h = refl

pub split_normalized-to_path :
    (ps : List Text) → All IsSegment ps → split_normalized (to_path ps) ≡ ps
unfolding split_normalized to_path
split_normalized-to_path [] h = unfold same in refl
split_normalized-to_path (p ∷ ps) h =
    let not_root : same (slash ∷ join slash (p ∷ ps)) root_path ≡ false =
      unfold same in join-not_empty p ps h.0 in
    rw not_root (split-join slash p ps (Lacks-of_IsSegment (p ∷ ps) h).0)

-- `splitPath` reads back the segments, all valid, that a path was rendered from.
pub split_path-to_path : (ps : List Text) → All IsSegment ps → split_path (to_path ps) ≡ ok ps
unfolding split_path
split_path-to_path ps h = rw (normalize_path-to_path ps h) (ap ok (split_normalized-to_path ps h))

-- Normalising a path that normalisation returned changes nothing.
pub normalize_path-idempotent :
    (path q : Text) → normalize_path path ≡ ok q → normalize_path q ≡ ok q
normalize_path-idempotent path q h =
    let (parts, segments, e) = normalize_path-IsCanonical path q h in
    rw e (normalize_path-to_path parts segments)
