-- ===== src/Path/Segments.antt =====
-- Splitting and joining texts at a separator, and entry names as path segments.
use opfs.Prelude.{
  ℕ, ◌≡◌, refl, ap, true, false, ◌||◌, List, [], ◌∷◌, ◌++◌, Text, same, ◌==◌, All, arith,
  Bool-cases, inl, inr, ◌∙◌,
}
use opfs.Path.{slash, backslash, dot, dot_dot, includes, split, extend_first, join, is_valid_name}

-- The code unit does not occur.
abbrev pub Lacks : ℕ → Text → Type 0
Lacks c s = includes c s ≡ false

pub includes-append : (c : ℕ) (s t : Text) → includes c (s ++ t) ≡ (includes c s || includes c t)
unfolding includes
includes-append c [] t = refl
includes-append c (d ∷ s) t = ground (arith, includes-append c s t)

pub split_of_Lacks : (sep : ℕ) (s : Text) → Lacks sep s → split sep s ≡ s ∷ []
unfolding split includes
split_of_Lacks sep [] h = refl
split_of_Lacks sep (c ∷ s) h = ground (arith, split_of_Lacks sep s)

pub split-append_sep :
    (sep : ℕ) (p s : Text) → Lacks sep p → split sep (p ++ sep ∷ s) ≡ p ∷ split sep s
unfolding split includes
split-append_sep sep [] s h = ground arith
split-append_sep sep (c ∷ p) s h = ground (arith, split-append_sep sep p s)

pub split-join :
    (sep : ℕ) (p : Text) (ps : List Text)
    → All (Lacks sep) (p ∷ ps)
    → split sep (join sep (p ∷ ps)) ≡ p ∷ ps
unfolding join
split-join sep p [] h = split_of_Lacks sep p h.0
split-join sep p (q ∷ ps) h =
    split-append_sep sep p (join sep (q ∷ ps)) h.0 ∙ ap (◌∷◌ p) (split-join sep q ps h.1)

-- A split has a first piece.
pub split-cons : (sep : ℕ) (s : Text) → (p : Text) × (ps : List Text) × (split sep s ≡ p ∷ ps)
unfolding split
split-cons sep [] = ([], [], refl)
split-cons sep (c ∷ s) =
    let (p, ps, e) = split-cons sep s in
    elim (Bool-cases (c == sep)) [
      | inl h ↦ ([], split sep s, ground arith)
      | inr h ↦ (c ∷ p, ps, ground arith)
    ]

join-extend_first :
    (sep c : ℕ) (p : Text) (ps : List Text)
    → join sep (extend_first c (p ∷ ps)) ≡ c ∷ join sep (p ∷ ps)
unfolding join
join-extend_first sep c p [] = refl
join-extend_first sep c p (q ∷ ps) = refl

join-empty :
    (sep : ℕ) (p : Text) (ps : List Text) → join sep ([] ∷ p ∷ ps) ≡ sep ∷ join sep (p ∷ ps)
unfolding join
join-empty sep p ps = refl

-- Joining the pieces gives the text back.
pub join-split : (sep : ℕ) (s : Text) → join sep (split sep s) ≡ s
unfolding split
join-split sep [] = unfold join in refl
join-split sep (c ∷ s) =
    let (p, ps, e) = split-cons sep s in
    elim (Bool-cases (c == sep)) [
      | inl h ↦ ground (arith, e, join-empty sep p ps, join-split sep s)
      | inr h ↦ ground (arith, e, join-extend_first sep c p ps, join-split sep s)
    ]

extend_first-Lacks :
    (c d : ℕ) (ps : List Text)
    → (d == c) ≡ false
    → All (Lacks c) ps
    → All (Lacks c) (extend_first d ps)
unfolding includes
extend_first-Lacks c d [] e h = (ground arith, tt)
extend_first-Lacks c d (p ∷ ps) e h = (ground arith, h.1)

pub All-split : (c sep : ℕ) (s : Text) → Lacks c s → All (Lacks c) (split sep s)
unfolding split includes
All-split c sep [] h = (refl, tt)
All-split c sep (d ∷ s) h = elim (Bool-cases (d == sep)) [
  | inl e ↦ rw e (refl, All-split c sep s (ground arith))
  | inr e ↦
      rw e (extend_first-Lacks c d (split sep s) (ground arith) (All-split c sep s (ground arith)))
]

pub All-split_sep : (sep : ℕ) (s : Text) → All (Lacks sep) (split sep s)
unfolding split includes
All-split_sep sep [] = (refl, tt)
All-split_sep sep (d ∷ s) = elim (Bool-cases (d == sep)) [
  | inl e ↦ rw e (refl, All-split_sep sep s)
  | inr e ↦ rw e (extend_first-Lacks sep d (split sep s) e (All-split_sep sep s))
]

-- An entry name, test by test.
pub record IsSegment (p : Text) : Type 0 where
  pub not_empty : same p [] ≡ false
  pub not_dot : same p dot ≡ false
  pub not_dot_dot : same p dot_dot ≡ false
  pub no_slash : Lacks slash p
  pub no_backslash : Lacks backslash p
  pub no_nul : Lacks 0 p

pub IsSegment-of_valid : (p : Text) → is_valid_name p ≡ true → IsSegment p
unfolding is_valid_name
IsSegment-of_valid p h = ground arith

pub valid_of_IsSegment : (p : Text) → IsSegment p → is_valid_name p ≡ true
unfolding is_valid_name
valid_of_IsSegment p h = ground arith
