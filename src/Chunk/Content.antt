-- ===== src/Chunk/Content.antt =====
-- What the splitter yields: the bytes of its source, in chunks of the size.
use mathlib.Core.List.{flatten}
use opfs.Prelude.{
  ℕ, ◌≤◌, ◌<◌, ◌≡◌, refl, ap, ◌∙◌, sym, subst, Bool, true, false, List, [], ◌∷◌, ◌++◌, append-nil,
  All, ltb, length, arith, if◌then◌else◌,
}
use opfs.Failure.{ok}
use opfs.Bytes.{Bytes}
use opfs.Chunk.{Splitter, empty_splitter, feed_all, finish, split_stream}
use opfs.Chunk.Rounds.{HasSize, Holds, flatten-snoc, feed_all-Holds}

-- The chunks of a stream: full ones, and a last one that is smaller and not empty, or none.
pub record IsSplit (size : ℕ) (source : Bytes) (chunks : List Bytes) : Type 0 where
  pub full : List Bytes
  pub last : List Bytes
  pub chunks_eq : chunks ≡ full ++ last
  pub full_sizes : All (HasSize size) full
  pub last_sizes : All (λ (chunk : Bytes). (0 < length chunk) × (length chunk < size)) last
  pub last_single : length last ≤ 1
  pub content : flatten chunks ≡ source

nothing_held : (bytes : Bytes) (n : ℕ) → length bytes ≡ n → n ≡ 0 → bytes ≡ []
nothing_held [] n h e = refl
nothing_held (x ∷ bytes) n h e = ground arith

with_last :
    (size : ℕ) (seen : Bytes) (s : Splitter)
    → Holds size seen s
    → 0 < s.held
    → IsSplit size seen (s.yielded ++ flatten s.pieces ∷ [])
with_last size seen s h some_held = record {
  full = s.yielded;
  last = flatten s.pieces ∷ [];
  chunks_eq = refl;
  full_sizes = h.sizes;
  last_sizes = (
    (subst (λ n. 0 < n) (sym h.held_eq) some_held, subst (λ n. n < size) (sym h.held_eq) h.room),
    tt,
  );
  last_single = omega arith;
  content = flatten-snoc s.yielded (flatten s.pieces) ∙ h.content;
}

without_last :
    (size : ℕ) (seen : Bytes) (s : Splitter)
    → Holds size seen s
    → s.held ≡ 0
    → IsSplit size seen s.yielded
without_last size seen s h none_held = record {
  full = s.yielded;
  last = [];
  chunks_eq = sym (append-nil s.yielded);
  full_sizes = h.sizes;
  last_sizes = tt;
  last_single = omega arith;
  content =
      sym (append-nil (flatten s.yielded))
      ∙ ap (λ t. flatten s.yielded ++ t)
          (sym (nothing_held (flatten s.pieces) s.held h.held_eq none_held))
      ∙ h.content;
}

either-IsSplit :
    (size : ℕ) (seen : Bytes) (t : Bool) (x y : List Bytes)
    → (t ≡ true → IsSplit size seen x)
    → (t ≡ false → IsSplit size seen y)
    → IsSplit size seen (if t then x else y)
either-IsSplit size seen true x y h k = h refl
either-IsSplit size seen false x y h k = k refl

finish-IsSplit :
    (size : ℕ) (seen : Bytes) (s : Splitter) → Holds size seen s → IsSplit size seen (finish s)
unfolding finish
finish-IsSplit size seen s h =
    either-IsSplit size seen (ltb 0 s.held) _ _ (λ e. with_last size seen s h (ground arith))
      (λ e. without_last size seen s h (ground arith))

empty-Holds : (size : ℕ) → 0 < size → Holds size [] empty_splitter
unfolding flatten
empty-Holds size positive = record { content = refl; held_eq = refl; room = positive; sizes = tt }

-- `split` with a positive size ends, and yields the bytes of its source unchanged, in chunks that all
-- have the size but for a smaller last one, which is not empty.
pub split_stream-IsSplit :
    (size : ℕ) (values : List Bytes)
    → 0 < size
    → (chunks : List Bytes) × (split_stream size values ≡ ok chunks)
      × IsSplit size (flatten values) chunks
unfolding split_stream
split_stream-IsSplit size values positive =
    let large : ltb size 1 ≡ false = ground arith in
    (
      finish (feed_all size values empty_splitter),
      rw (large, split_stream) refl,
      finish-IsSplit size (flatten values) _
          (feed_all-Holds size values [] empty_splitter (empty-Holds size positive)),
    )
