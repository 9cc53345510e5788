-- ===== src/Chunk/Rounds.antt =====
-- What the splitter has yielded and still holds, round by round.
use mathlib.Core.List.{flatten}
use opfs.Prelude.{
  ℕ, zero, suc, ◌+◌, ◌-◌, ◌≤◌, ◌<◌, ◌≡◌, refl, ap, ◌∙◌, sym, subst, Bool, true, false, List, [],
  ◌∷◌, ◌++◌, append-nil, append_assoc, All, All-append, ltb, ◌==◌, ==_iff, length, length-append,
  length-take, length-drop, take-append-drop, take, drop, min, arith, if◌then◌else◌,
}
use opfs.Bytes.{Bytes}
use opfs.Chunk.{Splitter, push, yield_full, feed, feed_all}

abbrev pub HasSize : ℕ → Bytes → Type 0
HasSize size chunk = length chunk ≡ size

-- The splitter after reading some bytes.
pub record Holds (size : ℕ) (seen : Bytes) (s : Splitter) : Type 0 where
  pub content : flatten s.yielded ++ flatten s.pieces ≡ seen
  pub held_eq : length (flatten s.pieces) ≡ s.held
  pub room : s.held < size
  pub sizes : All (HasSize size) s.yielded

same_bytes :
    {size : ℕ} {seen other : Bytes} {s : Splitter}
    → seen ≡ other
    → Holds size seen s
    → Holds size other s
same_bytes {size} {s = s} e h = subst (λ t. Holds size t s) e h

pub flatten-snoc : (xs : List Bytes) (x : Bytes) → flatten (xs ++ x ∷ []) ≡ flatten xs ++ x
unfolding flatten
flatten-snoc [] x = append-nil x
flatten-snoc (y ∷ xs) x = ap (λ t. y ++ t) (flatten-snoc xs x) ∙ sym (append_assoc y (flatten xs) x)

joined :
    (s : Splitter) (seen piece : Bytes)
    → flatten s.yielded ++ flatten s.pieces ≡ seen
    → flatten s.yielded ++ flatten (s.pieces ++ piece ∷ []) ≡ seen ++ piece
joined s seen piece h =
    ap (λ t. flatten s.yielded ++ t) (flatten-snoc s.pieces piece)
    ∙ sym (append_assoc (flatten s.yielded) (flatten s.pieces) piece)
    ∙ ap (λ t. t ++ piece) h

grown :
    (s : Splitter) (piece : Bytes) (count : ℕ)
    → length (flatten s.pieces) ≡ s.held
    → length piece ≡ count
    → length (flatten (s.pieces ++ piece ∷ [])) ≡ s.held + count
grown s piece count h n =
    ap length (flatten-snoc s.pieces piece)
    ∙ length-append (flatten s.pieces) piece
    ∙ omega (arith, h, n)

-- One round of the inner loop.
full-Holds :
    (size : ℕ) (seen piece : Bytes) (s : Splitter) (count : ℕ)
    → Holds size seen s
    → length piece ≡ count
    → s.held + count ≡ size
    → Holds size (seen ++ piece) (record {
      pieces = [];
      held = 0;
      yielded = s.yielded ++ flatten (s.pieces ++ piece ∷ []) ∷ [];
    })
unfolding flatten
full-Holds size seen piece s count h n full = record {
  content =
      append-nil (flatten (s.yielded ++ flatten (s.pieces ++ piece ∷ []) ∷ []))
      ∙ flatten-snoc s.yielded (flatten (s.pieces ++ piece ∷ []))
      ∙ joined s seen piece h.content;
  held_eq = refl;
  room = let r = h.room in omega arith;
  sizes =
      All-append (HasSize size) s.yielded (flatten (s.pieces ++ piece ∷ []) ∷ []) h.sizes
        (grown s piece count h.held_eq n ∙ full, tt);
}

pushed-Holds :
    (size : ℕ) (seen piece : Bytes) (s : Splitter) (count : ℕ)
    → Holds size seen s
    → length piece ≡ count
    → s.held + count < size
    → Holds size (seen ++ piece) (push s piece count)
unfolding push
pushed-Holds size seen piece s count h n low = record {
  content = joined s seen piece h.content;
  held_eq = grown s piece count h.held_eq n;
  room = low;
  sizes = h.sizes;
}

either-Holds :
    (size : ℕ) (seen : Bytes) (t : Bool) (x y : Splitter)
    → (t ≡ true → Holds size seen x)
    → (t ≡ false → Holds size seen y)
    → Holds size seen (if t then x else y)
either-Holds size seen true x y h k = h refl
either-Holds size seen false x y h k = k refl

not_full : (n size : ℕ) → n ≤ size → (n == size) ≡ false → n < size
not_full n size h e = ground arith

round-Holds :
    (size : ℕ) (seen piece : Bytes) (s : Splitter) (count : ℕ)
    → Holds size seen s
    → length piece ≡ count
    → s.held + count ≤ size
    → Holds size (seen ++ piece) (yield_full size (push s piece count))
unfolding yield_full push
round-Holds size seen piece s count h n fits =
    either-Holds size (seen ++ piece) (s.held + count == size) _ _
      (λ e. full-Holds size seen piece s count h n ((==_iff (s.held + count) size).0 e))
      (λ e. pushed-Holds size seen piece s count h n (not_full (s.held + count) size fits e))

count_fits : (held size n : ℕ) → held < size → held + min (size - held) n ≤ size
count_fits held size n h = omega arith

piece_length :
    (value : Bytes) (offset room : ℕ)
    → length (take (min room (length value - offset)) (drop offset value))
      ≡ min room (length value - offset)
piece_length value offset room =
    length-take (min room (length value - offset)) (drop offset value)
    ∙ omega (arith, length-drop offset value)

progress :
    (n offset fuel held size : ℕ)
    → held < size
    → offset < n
    → n ≤ offset + suc fuel
    → n ≤ (offset + min (size - held) (n - offset)) + fuel
progress n offset fuel held size h k e = omega arith

drop-beyond : (n : ℕ) (value : Bytes) → length value ≤ n → drop n value ≡ []
drop-beyond zero [] h = refl
drop-beyond (suc n) [] h = refl
drop-beyond zero (x ∷ value) h = ground arith
drop-beyond (suc n) (x ∷ value) h = drop-beyond n value (omega arith)

zero_add : (n : ℕ) → n ≡ 0 + n
zero_add n = omega arith

suc_add : (m n : ℕ) → suc (m + n) ≡ suc m + n
suc_add m n = omega arith

drop-empty : (n : ℕ) → drop {A = ℕ} n [] ≡ []
drop-empty zero = refl
drop-empty (suc n) = refl

drop-drop : (n m : ℕ) (value : Bytes) → drop n (drop m value) ≡ drop (m + n) value
drop-drop n zero value = ap (λ k. drop k value) (zero_add n)
drop-drop n (suc m) [] = drop-empty n ∙ sym (drop-empty (suc m + n))
drop-drop n (suc m) (x ∷ value) = drop-drop n m value ∙ ap (λ k. drop k (x ∷ value)) (suc_add m n)

-- A value from an offset is its next piece and what follows that.
pieces_of :
    (seen value : Bytes) (offset count : ℕ)
    → (seen ++ take count (drop offset value)) ++ drop (offset + count) value
      ≡ seen ++ drop offset value
pieces_of seen value offset count =
    append_assoc seen (take count (drop offset value)) (drop (offset + count) value)
    ∙ ap (λ t. seen ++ (take count (drop offset value) ++ t)) (sym (drop-drop count offset value))
    ∙ ap (λ t. seen ++ t) (take-append-drop count (drop offset value))

-- Reading on from an offset hands over the rest of the value.
feed-Holds :
    (fuel size : ℕ) (value : Bytes) (offset : ℕ) (seen : Bytes) (s : Splitter)
    → Holds size seen s
    → length value ≤ offset + fuel
    → Holds size (seen ++ drop offset value) (feed fuel size value offset s)
unfolding feed
feed-Holds zero size value offset seen s h e =
    subst (λ t. Holds size t s)
      (sym (append-nil seen) ∙ ap (λ t. seen ++ t) (sym (drop-beyond offset value (omega arith)))) h
feed-Holds (suc fuel) size value offset seen s h e =
    either-Holds size (seen ++ drop offset value) (ltb offset (length value)) _ _
      (λ more.
        same_bytes (pieces_of seen value offset (min (size - s.held) (length value - offset))) (
          feed-Holds fuel size value (offset + min (size - s.held) (length value - offset)) _ _
            (round-Holds size seen
              (take (min (size - s.held) (length value - offset)) (drop offset value)) s
              (min (size - s.held) (length value - offset)) h
              (piece_length value offset (size - s.held))
              (count_fits s.held size (length value - offset) h.room))
            (progress (length value) offset fuel s.held size h.room (ground arith) e)))
      (λ done.
        subst (λ t. Holds size t s)
          (sym (append-nil seen)
            ∙ ap (λ t. seen ++ t) (sym (drop-beyond offset value (ground arith))))
          h)

pub feed_all-Holds :
    (size : ℕ) (values : List Bytes) (seen : Bytes) (s : Splitter)
    → Holds size seen s
    → Holds size (seen ++ flatten values) (feed_all size values s)
unfolding feed_all flatten
feed_all-Holds size [] seen s h = subst (λ t. Holds size t s) (sym (append-nil seen)) h
feed_all-Holds size (value ∷ values) seen s h =
    same_bytes (append_assoc seen value (flatten values)) (
      feed_all-Holds size values (seen ++ value) _
        (feed-Holds (length value) size value 0 seen s h (omega arith)))
