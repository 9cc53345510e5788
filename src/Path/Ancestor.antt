-- ===== src/Path/Ancestor.antt =====
-- `isAncestorPath` on canonical paths is the strict prefix order of their segments.
use opfs.Prelude.{
  ◌≡◌, ◌≢◌, refl, ap, ◌↔◌, true, false, List, [], ◌∷◌, ◌++◌, Text, same, same_iff, All, arith,
  Bool-cases, inl, inr, ◌∙◌, sym, append_assoc, length, length-append, subst,
}
use opfs.Failure.{ok, ok-injective}
use opfs.Path.{
  slash, root_path, split, join, to_path, split_normalized, starts_with, contains_path,
  is_ancestor_path, includes,
}
use opfs.Path.Segments.{Lacks, IsSegment, split-append_sep, split-cons}
use opfs.Path.Canonical.{
  normalize_path-to_path, split_normalized-to_path, split-to_path, Lacks-of_IsSegment,
  join-not_empty,
}

pub record IsStrictPrefix (ps qs : List Text) : Type 0 where
  pub next : Text
  pub rest : List Text
  pub split_at : qs ≡ ps ++ next ∷ rest

starts_with_sound : (s t : Text) → starts_with s t ≡ true → (u : Text) × (s ≡ t ++ u)
unfolding starts_with
starts_with_sound s [] h = (s, refl)
starts_with_sound [] (d ∷ t) h = cc
starts_with_sound (c ∷ s) (d ∷ t) h =
    let (u, e) = starts_with_sound s t (ground arith) in (u, ground arith)

pub starts_with_append : (t u : Text) → starts_with (t ++ u) t ≡ true
unfolding starts_with
starts_with_append [] u = refl
starts_with_append (d ∷ t) u = ground (arith, starts_with_append t u)

split-join_append :
    (p : Text) (ps : List Text) (u : Text)
    → All (Lacks slash) (p ∷ ps)
    → split slash (join slash (p ∷ ps) ++ slash ∷ u) ≡ (p ∷ ps) ++ split slash u
unfolding join
split-join_append p [] u h = split-append_sep slash p u h.0
split-join_append p (q ∷ ps) u h =
    ap (split slash) (append_assoc p (slash ∷ join slash (q ∷ ps)) (slash ∷ u))
    ∙ split-append_sep slash p (join slash (q ∷ ps) ++ slash ∷ u) h.0
    ∙ ap (◌∷◌ p) (split-join_append q ps u h.1)

join-append :
    (p : Text) (ps : List Text) (q : Text) (qs : List Text)
    → join slash ((p ∷ ps) ++ q ∷ qs) ≡ join slash (p ∷ ps) ++ slash ∷ join slash (q ∷ qs)
unfolding join
join-append p [] q qs = refl
join-append p (x ∷ ps) q qs =
    rw (join-append x ps q qs)
      (sym (append_assoc p (slash ∷ join slash (x ∷ ps)) (slash ∷ join slash (q ∷ qs))))

pub to_path-injective :
    (ps qs : List Text) → All IsSegment ps → All IsSegment qs → to_path ps ≡ to_path qs → ps ≡ qs
to_path-injective ps qs a b e =
    sym (split_normalized-to_path ps a) ∙ ap split_normalized e ∙ split_normalized-to_path qs b

split-below :
    (p : Text) (ps : List Text) (u : Text)
    → All IsSegment (p ∷ ps)
    → split slash ((to_path (p ∷ ps) ++ slash ∷ []) ++ u) ≡ [] ∷ (p ∷ ps) ++ split slash u
unfolding to_path
split-below p ps u a =
    ap (split slash) (append_assoc (slash ∷ join slash (p ∷ ps)) (slash ∷ []) u)
    ∙ split-append_sep slash [] (join slash (p ∷ ps) ++ slash ∷ u) (unfold includes in refl)
    ∙ ap (◌∷◌ []) (split-join_append p ps u (Lacks-of_IsSegment (p ∷ ps) a).0)

no_root : (p : Text) (ps : List Text) → IsSegment p → same (to_path (p ∷ ps)) root_path ≡ false
unfolding to_path same
no_root p ps h = join-not_empty p ps h

split-root : split slash (to_path []) ≡ [] ∷ [] ∷ []
unfolding split to_path
split-root = refl

segment-ne-nil : (p : Text) → IsSegment p → p ≢ []
unfolding same
segment-ne-nil [] h e = absurd (ground (arith, h.not_empty))
segment-ne-nil (c ∷ p) h e = cc

-- What follows a canonical path and a slash is the rest of the segments.
strict_of_prefix :
    (p : Text) (ps qs : List Text) (u : Text)
    → All IsSegment (p ∷ ps)
    → All IsSegment qs
    → to_path qs ≡ (to_path (p ∷ ps) ++ slash ∷ []) ++ u
    → IsStrictPrefix (p ∷ ps) qs
strict_of_prefix p ps [] u a b e =
    let pieces : [] ∷ [] ∷ [] ≡ [] ∷ (p ∷ ps) ++ split slash u =
      sym split-root ∙ ap (split slash) e ∙ split-below p ps u a in
    let empty : p ≡ [] = cc in absurd (segment-ne-nil p a.0 empty)
strict_of_prefix p ps (q ∷ qs) u a b e =
    let pieces : [] ∷ q ∷ qs ≡ [] ∷ (p ∷ ps) ++ split slash u =
      sym (split-to_path q qs b) ∙ ap (split slash) e ∙ split-below p ps u a in
    let (x, xs, s) = split-cons slash u in
    record { next = x; rest = xs; split_at = ground (arith, pieces, s) }

strict_of_contains :
    (ps qs : List Text)
    → All IsSegment ps
    → All IsSegment qs
    → contains_path (to_path ps) (to_path qs) ≡ true
    → IsStrictPrefix ps qs
strict_of_contains [] [] a b h = absurd (unfold contains_path to_path same in cc)
strict_of_contains [] (q ∷ qs) a b h = record { next = q; rest = qs; split_at = refl }
strict_of_contains (p ∷ ps) qs a b h =
    let starts : starts_with (to_path qs) (to_path (p ∷ ps) ++ slash ∷ []) ≡ true =
      unfold contains_path in ground (arith, no_root p ps a.0) in
    let (u, e) = starts_with_sound (to_path qs) (to_path (p ∷ ps) ++ slash ∷ []) starts in
    strict_of_prefix p ps qs u a b e

not_own_extension : (ps : List Text) (r : Text) (rs : List Text) → ps ≡ ps ++ r ∷ rs → ⊥
not_own_extension ps r rs e = omega (arith, ap length e, length-append ps (r ∷ rs))

not_same :
    (ps : List Text) (r : Text) (rs : List Text)
    → All IsSegment ps
    → All IsSegment (ps ++ r ∷ rs)
    → same (to_path ps) (to_path (ps ++ r ∷ rs)) ≡ false
not_same ps r rs a b = elim (Bool-cases (same (to_path ps) (to_path (ps ++ r ∷ rs)))) [
  | inl e ↦ absurd (
      not_own_extension ps r rs (
        to_path-injective ps (ps ++ r ∷ rs) a b
          ((same_iff (to_path ps) (to_path (ps ++ r ∷ rs))).0 e)))
  | inr e ↦ e
]

starts_below :
    (p : Text) (ps : List Text) (r : Text) (rs : List Text)
    → starts_with (to_path ((p ∷ ps) ++ r ∷ rs)) (to_path (p ∷ ps) ++ slash ∷ []) ≡ true
unfolding to_path
starts_below p ps r rs =
    rw
      (
        join-append p ps r rs,
        ← append_assoc (slash ∷ join slash (p ∷ ps)) (slash ∷ []) (join slash (r ∷ rs)),
      )
      (starts_with_append ((slash ∷ join slash (p ∷ ps)) ++ slash ∷ []) (join slash (r ∷ rs)))

contains_of_strict :
    (ps : List Text) (r : Text) (rs : List Text)
    → All IsSegment ps
    → All IsSegment (ps ++ r ∷ rs)
    → contains_path (to_path ps) (to_path (ps ++ r ∷ rs)) ≡ true
unfolding contains_path
contains_of_strict [] r rs a b =
    let at_root : same (to_path []) root_path ≡ true = unfold to_path same in refl in
    rw (not_same [] r rs a b, at_root) refl
contains_of_strict (p ∷ ps) r rs a b =
    ground (arith, not_same (p ∷ ps) r rs a b, starts_below p ps r rs)

is_ancestor_path-to_path :
    (ps qs : List Text)
    → All IsSegment ps
    → All IsSegment qs
    → is_ancestor_path (to_path ps) (to_path qs) ≡ ok (contains_path (to_path ps) (to_path qs))
unfolding is_ancestor_path
is_ancestor_path-to_path ps qs a b =
    rw (normalize_path-to_path ps a, normalize_path-to_path qs b) refl

-- A canonical path is an ancestor of another exactly if its segments are a strict prefix of the
-- other's: `/a` contains `/a/b` and not `/ab`, and no path contains itself.
pub is_ancestor_path_iff :
    (ps qs : List Text)
    → All IsSegment ps
    → All IsSegment qs
    → (is_ancestor_path (to_path ps) (to_path qs) ≡ ok true) ↔ IsStrictPrefix ps qs
is_ancestor_path_iff ps qs a b = (
  (λ e. strict_of_contains ps qs a b (ok-injective (sym (is_ancestor_path-to_path ps qs a b) ∙ e))),
  (λ s.
      is_ancestor_path-to_path ps qs a b
      ∙ ap ok (
          rw s.split_at
            (contains_of_strict ps s.next s.rest a (subst (All IsSegment) s.split_at b)))),
)
