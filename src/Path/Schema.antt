-- ===== src/Path/Schema.antt =====
-- `PathSchema` of src/schema.ts against `normalizePath`.
use opfs.Prelude.{
  ℕ, ◌≡◌, refl, ap, ◌↔◌, true, false, List, [], ◌∷◌, ◌++◌, Text, same, same_iff, All, arith,
  Bool-cases, inl, inr, ◌∙◌, append-nil,
}
use opfs.Failure.{ok}
use opfs.Path.{
  slash, backslash, root_path, includes, split, join, to_path, normalize_path, starts_with,
  path_schema, ends_with_slash, includes_double_slash, every_part,
}
use opfs.Path.Segments.{Lacks, IsSegment, join-split, All-split, All-split_sep, split-cons}
use opfs.Path.Canonical.{
  IsCanonical, Lacks-of_IsSegment, to_path-Lacks, split-to_path, join-not_empty,
  normalize_path-IsCanonical, normalize_path-to_path,
}

ends_with_slash_of_Lacks : (p : Text) → Lacks slash p → ends_with_slash p ≡ false
unfolding ends_with_slash includes
ends_with_slash_of_Lacks [] h = refl
ends_with_slash_of_Lacks (c ∷ []) h = ground arith
ends_with_slash_of_Lacks (c ∷ d ∷ p) h = ends_with_slash_of_Lacks (d ∷ p) (ground arith)

ends_with_slash-append :
    (p t : Text) (d : ℕ) → ends_with_slash (p ++ d ∷ t) ≡ ends_with_slash (d ∷ t)
unfolding ends_with_slash
ends_with_slash-append [] t d = refl
ends_with_slash-append (c ∷ []) t d = refl
ends_with_slash-append (c ∷ e ∷ p) t d = ends_with_slash-append (e ∷ p) t d

ends_with_slash-cons :
    (c : ℕ) (t : Text) → same t [] ≡ false → ends_with_slash (c ∷ t) ≡ ends_with_slash t
unfolding ends_with_slash same
ends_with_slash-cons c [] h = cc
ends_with_slash-cons c (d ∷ t) h = refl

ends_with_slash-join :
    (p : Text) (ps : List Text)
    → All IsSegment (p ∷ ps)
    → ends_with_slash (join slash (p ∷ ps)) ≡ false
unfolding join
ends_with_slash-join p [] h = ends_with_slash_of_Lacks p h.0.no_slash
ends_with_slash-join p (q ∷ ps) h =
    ends_with_slash-append p (join slash (q ∷ ps)) slash
    ∙ ends_with_slash-cons slash (join slash (q ∷ ps)) (join-not_empty q ps h.1.0)
    ∙ ends_with_slash-join q ps h.1

includes_double_slash_of_Lacks : (p : Text) → Lacks slash p → includes_double_slash p ≡ false
unfolding includes_double_slash includes
includes_double_slash_of_Lacks [] h = refl
includes_double_slash_of_Lacks (c ∷ []) h = refl
includes_double_slash_of_Lacks (c ∷ d ∷ p) h =
    ground (arith, includes_double_slash_of_Lacks (d ∷ p))

includes_double_slash-append :
    (p t : Text)
    → Lacks slash p
    → includes_double_slash (p ++ slash ∷ t) ≡ includes_double_slash (slash ∷ t)
unfolding includes_double_slash includes
includes_double_slash-append [] t h = refl
includes_double_slash-append (c ∷ []) t h = ground arith
includes_double_slash-append (c ∷ d ∷ p) t h =
    ground (arith, includes_double_slash-append (d ∷ p) t)

-- A slash before a segment makes no double slash.
includes_double_slash-cons :
    (p t : Text)
    → IsSegment p
    → includes_double_slash (slash ∷ (p ++ t)) ≡ includes_double_slash (p ++ t)
unfolding includes_double_slash includes
includes_double_slash-cons [] t h = absurd (unfold same in ground (arith, h.not_empty))
includes_double_slash-cons (c ∷ p) t h = ground (arith, h.no_slash)

includes_double_slash-join :
    (p : Text) (ps : List Text)
    → All IsSegment (p ∷ ps)
    → includes_double_slash (slash ∷ join slash (p ∷ ps)) ≡ false
unfolding join
includes_double_slash-join p [] h =
    (rw append-nil at (includes_double_slash-cons p [] h.0))
    ∙ includes_double_slash_of_Lacks p h.0.no_slash
includes_double_slash-join p (q ∷ ps) h =
    includes_double_slash-cons p (slash ∷ join slash (q ∷ ps)) h.0
    ∙ includes_double_slash-append p (join slash (q ∷ ps)) h.0.no_slash
    ∙ includes_double_slash-join q ps h.1

every_part_of_IsSegment : (ps : List Text) → All IsSegment ps → every_part ps ≡ true
unfolding every_part
every_part_of_IsSegment [] h = refl
every_part_of_IsSegment (p ∷ ps) h =
    ground (arith, every_part_of_IsSegment ps h.1, h.0.not_empty, h.0.not_dot, h.0.not_dot_dot)

pub path_schema-to_path : (ps : List Text) → All IsSegment ps → path_schema (to_path ps) ≡ true
unfolding path_schema
path_schema-to_path [] h = unfold to_path same in refl
path_schema-to_path (p ∷ ps) h =
    let (no_slash, no_backslash, no_nul) = Lacks-of_IsSegment (p ∷ ps) h in
    let path = to_path (p ∷ ps) in
    let starts : starts_with path root_path ≡ true = unfold starts_with to_path in refl in
    let ends : ends_with_slash path ≡ false =
      unfold to_path in
      (ends_with_slash-cons slash (join slash (p ∷ ps)) (join-not_empty p ps h.0)
        ∙ ends_with_slash-join p ps h) in
    let doubles : includes_double_slash path ≡ false =
      unfold to_path in includes_double_slash-join p ps h in
    ground (
      arith,
      starts,
      ends,
      doubles,
      to_path-Lacks backslash p ps refl no_backslash,
      to_path-Lacks 0 p ps refl no_nul,
      split-to_path p ps h,
      every_part_of_IsSegment (p ∷ ps) h,
    )

IsSegment-of_every_part :
    (ps : List Text)
    → every_part ps ≡ true
    → All (Lacks slash) ps
    → All (Lacks backslash) ps
    → All (Lacks 0) ps
    → All IsSegment ps
unfolding every_part
IsSegment-of_every_part [] h a b c = tt
IsSegment-of_every_part (p ∷ ps) h a b c =
    (ground arith, IsSegment-of_every_part ps (ground arith) a.1 b.1 c.1)

to_path-split : (s : Text) → to_path (split slash s) ≡ slash ∷ s
unfolding to_path
to_path-split s =
    let (p, ps, e) = split-cons slash s in rw e (ap (◌∷◌ slash) (rw e at (join-split slash s)))

IsCanonical-of_path_schema : (q : Text) → path_schema q ≡ true → IsCanonical q
unfolding path_schema
IsCanonical-of_path_schema [] h = absurd (unfold same starts_with in ground arith)
IsCanonical-of_path_schema (c ∷ s) h = elim (Bool-cases (same (c ∷ s) root_path)) [
  | inl e ↦ ([], tt, unfold to_path in (same_iff (c ∷ s) root_path).0 e)
  | inr no_root ↦
      let parts = split slash s in
      let first : c ≡ slash = unfold starts_with in ground arith in
      let pieces : split slash (c ∷ s) ≡ [] ∷ parts = unfold split in ground arith in
      let every : every_part parts ≡ true = ground (arith, pieces) in
      let back : Lacks backslash s = unfold includes in ground arith in
      let nul : Lacks 0 s = unfold includes in ground arith in
      (
        parts,
        IsSegment-of_every_part parts every (All-split_sep slash s)
            (All-split backslash slash s back) (All-split 0 slash s nul),
        ground (arith, to_path-split s),
      )
]

-- `PathSchema` accepts exactly the paths that `normalizePath` returns unchanged.
pub path_schema_iff_normal : (q : Text) → (path_schema q ≡ true) ↔ (normalize_path q ≡ ok q)
path_schema_iff_normal q = (
  (λ h.
      let (parts, segments, e) = IsCanonical-of_path_schema q h in
      rw e (normalize_path-to_path parts segments)),
  (λ h.
      let (parts, segments, e) = normalize_path-IsCanonical q q h in
      rw e (path_schema-to_path parts segments)),
)
