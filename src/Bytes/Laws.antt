-- ===== src/Bytes/Laws.antt =====
-- What a write image holds at each index, and its size.
use opfs.Prelude.{
  ℕ, zero, suc, ◌+◌, ◌-◌, ◌≤◌, ◌≡◌, refl, ap, Option, none, some, Bool, true, false, List, [], ◌∷◌,
  ◌++◌, length, take, drop, replicate, get_elem?, max, length-append, length-take, length-drop, ltb,
  if◌then◌else◌, arith,
}
use opfs.Bytes.{
  Bytes, WriteMode, replace, append, update, or_else, blit, write_image, apply_write,
  get_write_size,
}

module _ {ℓ} {A : Type ℓ} where
  pub get_elem?-append :
      (xs ys : List A) (i : ℕ)
      → get_elem? (xs ++ ys) i
        ≡ (if ltb i (length xs) then get_elem? xs i else get_elem? ys (i - length xs))
  get_elem?-append [] ys i = ground arith
  get_elem?-append (x ∷ xs) ys zero = ground arith
  get_elem?-append (x ∷ xs) ys (suc i) = ground (arith, get_elem?-append xs ys i)

  pub get_elem?-take :
      (n : ℕ) (xs : List A) (i : ℕ)
      → get_elem? (take n xs) i ≡ (if ltb i n then get_elem? xs i else none)
  get_elem?-take zero xs i = ground arith
  get_elem?-take (suc n) [] i = ground arith
  get_elem?-take (suc n) (x ∷ xs) zero = ground arith
  get_elem?-take (suc n) (x ∷ xs) (suc i) = ground (arith, get_elem?-take n xs i)

  pub get_elem?-drop :
      (n : ℕ) (xs : List A) (i : ℕ) → get_elem? (drop n xs) i ≡ get_elem? xs (n + i)
  get_elem?-drop zero xs i = ground arith
  get_elem?-drop (suc n) [] i = refl
  get_elem?-drop (suc n) (x ∷ xs) i = ground (arith, get_elem?-drop n xs i)

  pub get_elem?-replicate :
      (n : ℕ) (a : A) (i : ℕ) → get_elem? (replicate n a) i ≡ (if ltb i n then some a else none)
  get_elem?-replicate zero a i = ground arith
  get_elem?-replicate (suc n) a zero = ground arith
  get_elem?-replicate (suc n) a (suc i) = ground (arith, get_elem?-replicate n a i)

  pub get_elem?_beyond : (xs : List A) (i : ℕ) → length xs ≤ i → get_elem? xs i ≡ none
  get_elem?_beyond [] i h = refl
  get_elem?_beyond (x ∷ xs) zero h = absurd (omega arith)
  get_elem?_beyond (x ∷ xs) (suc i) h = get_elem?_beyond xs i (omega arith)

  pub length-replicate : (n : ℕ) (a : A) → length (replicate n a) ≡ n
  length-replicate zero a = refl
  length-replicate (suc n) a = ap suc (length-replicate n a)

length-blit :
    (output source : Bytes) (p : ℕ)
    → p + length source ≤ length output
    → length (blit output source p) ≡ length output
length-blit output source p h = omega (
  arith,
  length-append (take p output) (source ++ drop (p + length source) output),
  length-append source (drop (p + length source) output),
  length-take p output,
  length-drop (p + length source) output,
)

regroup : (p n i : ℕ) → p + n ≤ i → p + n + (i - p - n) ≡ i
regroup p n i h = omega arith

get_elem?-blit :
    (output source : Bytes) (p i : ℕ)
    → p + length source ≤ length output
    → get_elem? (blit output source p) i ≡ (
        if ltb i p
        then get_elem? output i
        else if ltb i (p + length source)
        then get_elem? source (i - p)
        else get_elem? output i)
get_elem?-blit output source p i h = ground (
  arith,
  get_elem?-append (take p output) (source ++ drop (p + length source) output) i,
  get_elem?-append source (drop (p + length source) output) (i - p),
  get_elem?-take p output i,
  length-take p output,
  get_elem?-drop (p + length source) output (i - p - length source),
  regroup p (length source) i,
)

abbrev image : Bytes → Bytes → ℕ → Bytes
image existing bytes position =
    blit (blit (replicate (max (length existing) (position + length bytes)) 0) existing 0) bytes
      position

length-image :
    (existing bytes : Bytes) (p : ℕ)
    → length (image existing bytes p) ≡ max (length existing) (p + length bytes)
length-image existing bytes p =
    let size = max (length existing) (p + length bytes) in
    omega (
      arith,
      length-replicate size (zero),
      length-blit (replicate size 0) existing 0,
      length-blit (blit (replicate size 0) existing 0) bytes p,
    )

-- The byte at an index after a write at a position: the data inside their range, the old byte
-- outside it, a zero in the gap before data that start behind the end, and nothing behind the data
-- if the file is truncated there.
abbrev pub written : Bytes → Bytes → ℕ → Bool → ℕ → Option ℕ
written existing bytes p truncate i =
    if ltb i p
    then (if ltb i (length existing) then get_elem? existing i else some 0)
    else if ltb i (p + length bytes)
    then get_elem? bytes (i - p)
    else if truncate
    then none
    else get_elem? existing i

get_elem?-image :
    (existing bytes : Bytes) (p i : ℕ)
    → get_elem? (image existing bytes p) i ≡ written existing bytes p false i
get_elem?-image existing bytes p i =
    let size = max (length existing) (p + length bytes) in
    let zeros = replicate size zero in
    ground (
      arith,
      length-replicate size zero,
      length-blit zeros existing 0,
      get_elem?-blit (blit zeros existing 0) bytes p i,
      get_elem?-blit zeros existing 0 i,
      get_elem?-replicate size zero i,
      get_elem?_beyond existing i,
    )

length-write_image :
    (existing bytes : Bytes) (p : ℕ) (truncate : Bool)
    → length (write_image existing bytes p truncate)
      ≡ (if truncate then p + length bytes else max (length existing) (p + length bytes))
length-write_image existing bytes p true = omega (
  arith,
  length-take (p + length bytes - 0) (image existing bytes p),
  length-image existing bytes p,
)
length-write_image existing bytes p false = length-image existing bytes p

get_elem?-write_image :
    (existing bytes : Bytes) (p : ℕ) (truncate : Bool) (i : ℕ)
    → get_elem? (write_image existing bytes p truncate) i ≡ written existing bytes p truncate i
get_elem?-write_image existing bytes p true i = ground (
  arith,
  get_elem?-take (p + length bytes) (image existing bytes p) i,
  get_elem?-image existing bytes p i,
)
get_elem?-write_image existing bytes p false i = get_elem?-image existing bytes p i

-- Where a write puts its data: over the file from the start for `replace`, behind its end for
-- `append`, and at the requested offset for `update`.
abbrev pub write_position : Bytes → WriteMode → Option ℕ → ℕ
write_position existing replace at = 0
write_position existing append at = length existing
write_position existing update at = or_else at 0

abbrev pub truncates : WriteMode → Bool → Bool
truncates replace truncate = true
truncates append truncate = truncate
truncates update truncate = truncate

-- Every byte of the image that a write produces, in each mode: see `written`. A replacement is a
-- write at the start that truncates.
pub get_elem?-apply_write :
    (existing bytes : Bytes) (mode : WriteMode) (at : Option ℕ) (truncate : Bool) (i : ℕ)
    → get_elem? (apply_write existing bytes mode at truncate) i
      ≡ written existing bytes (write_position existing mode at) (truncates mode truncate) i
unfolding apply_write
get_elem?-apply_write existing bytes replace at truncate i =
    ground (arith, get_elem?_beyond bytes i)
get_elem?-apply_write existing bytes append at truncate i =
    get_elem?-write_image existing bytes (length existing) truncate i
get_elem?-apply_write existing bytes update at truncate i =
    get_elem?-write_image existing bytes (or_else at 0) truncate i

-- The facade predicts the size of the adapter's image exactly.
pub length-apply_write :
    (existing bytes : Bytes) (mode : WriteMode) (at : Option ℕ) (truncate : Bool)
    → length (apply_write existing bytes mode at truncate)
      ≡ get_write_size (length existing) (length bytes) mode at truncate
unfolding apply_write get_write_size
length-apply_write existing bytes replace at truncate = refl
length-apply_write existing bytes append at truncate =
    length-write_image existing bytes (length existing) truncate
length-apply_write existing bytes update at truncate =
    length-write_image existing bytes (or_else at 0) truncate
