-- ===== src/Path/Normal.antt =====
-- Canonical paths: what `normalizePath` returns, and that it returns them unchanged.
use opfs.Prelude.{
  ◌≡◌, ap, ◌||◌, List, [], ◌∷◌, ◌++◌, Text, same, All, All-append, arith, Bool-cases, inl, inr, ◌∙◌,
  sym, append_assoc, append-nil, subst,
}
use opfs.Failure.{ok, >>=-eq-ok, ok-injective}
use opfs.Path.{slash, backslash, dot, drop_last, pop, resolve_part, resolve_parts}
use opfs.Path.Segments.{Lacks, IsSegment}

pub drop_last-All : (P : Text → Type 0) (ps : List Text) → All P ps → All P (drop_last ps)
drop_last-All P [] h = tt
drop_last-All P (p ∷ []) h = tt
drop_last-All P (p ∷ q ∷ ps) h = (h.0, drop_last-All P (q ∷ ps) h.1)

-- A piece of a split of a text with no NUL and no backslash.
abbrev pub IsPiece : Text → Type 0
IsPiece p = Lacks slash p × Lacks backslash p × Lacks 0 p

pop-All :
    (path : Text) (parts next : List Text)
    → All IsSegment parts
    → pop path parts ≡ ok next
    → All IsSegment next
pop-All path [] next h e = cc
pop-All path (p ∷ ps) next h e =
    subst (All IsSegment) (ok-injective e) (drop_last-All IsSegment (p ∷ ps) h)

pub resolve_part-All :
    (path : Text) (parts : List Text) (part : Text) (next : List Text)
    → All IsSegment parts
    → IsPiece part
    → resolve_part path parts part ≡ ok next
    → All IsSegment next
unfolding resolve_part
resolve_part-All path parts part next h k e = elim (Bool-cases (same part [] || same part dot)) [
  | inl skip ↦ ground (arith, pop-All path parts next h)
  | inr keep ↦ ground (arith, pop-All path parts next h, All-append IsSegment parts (part ∷ []) h)
]

pub resolve_parts-All :
    (path : Text) (parts rest : List Text) (out : List Text)
    → All IsSegment parts
    → All IsPiece rest
    → resolve_parts path parts rest ≡ ok out
    → All IsSegment out
unfolding resolve_parts
resolve_parts-All path parts [] out h k e = subst (All IsSegment) (ok-injective e) h
resolve_parts-All path parts (part ∷ rest) out h k e =
    let (next, first, later) = >>=-eq-ok (resolve_part path parts part) _ e in
    resolve_parts-All path next rest out (resolve_part-All path parts part next h k.0 first) k.1
      later

pub All-× :
    (ps : List Text)
    → All (Lacks slash) ps
    → All (Lacks backslash) ps
    → All (Lacks 0) ps
    → All IsPiece ps
All-× [] a b c = tt
All-× (p ∷ ps) a b c = ((a.0, b.0, c.0), All-× ps a.1 b.1 c.1)

pub resolve_part_of_IsSegment :
    (path : Text) (parts : List Text) (part : Text)
    → IsSegment part
    → resolve_part path parts part ≡ ok (parts ++ part ∷ [])
unfolding resolve_part
resolve_part_of_IsSegment path parts part h = ground arith

-- On segments the loop only collects them.
pub resolve_parts_of_IsSegment :
    (path : Text) (parts rest : List Text)
    → All IsSegment rest
    → resolve_parts path parts rest ≡ ok (parts ++ rest)
unfolding resolve_parts
resolve_parts_of_IsSegment path parts [] h = ap ok (sym (append-nil parts))
resolve_parts_of_IsSegment path parts (part ∷ rest) h =
    rw (resolve_part_of_IsSegment path parts part h.0) (
      resolve_parts_of_IsSegment path (parts ++ part ∷ []) rest h.1
      ∙ ap ok (append_assoc parts (part ∷ []) rest))
