-- ===== src/Chunk.antt =====
-- The splitter of byte streams (`split` of src/chunk.ts), run to the end of its source. A chunk that
-- is yielded is one of the list `yielded`; `concat` of `@std/bytes` is the concatenation of pieces.
use mathlib.Core.List.{flatten}
use opfs.Prelude.{
  ℕ, zero, suc, ◌+◌, ◌-◌, Bool, List, [], ◌∷◌, ◌++◌, ltb, ◌==◌, length, take, drop, min,
  if◌then◌else◌,
}
use opfs.Failure.{Result, ok, throw, range_error}
use opfs.Bytes.{Bytes}
pub mod Rounds
pub mod Content
pub mod Tests

-- The locals `pieces` and `length`, and what was yielded.
pub record Splitter : Type 0 where
  pub pieces : List Bytes
  pub held : ℕ
  pub yielded : List Bytes

abbrev pub empty_splitter : Splitter
empty_splitter = record { pieces = []; held = 0; yielded = [] }

unfoldable pub push : Splitter → Bytes → ℕ → Splitter
push s piece count = record s { pieces = s.pieces ++ piece ∷ []; held = s.held + count }

-- `if (length === size) { yield concat(pieces); pieces = []; length = 0; }`.
unfoldable pub yield_full : ℕ → Splitter → Splitter
yield_full size s =
    if s.held == size
    then record { pieces = []; held = 0; yielded = s.yielded ++ flatten s.pieces ∷ [] }
    else s

-- The inner loop, from an offset into the value that was read.
unfoldable pub feed : ℕ → ℕ → Bytes → ℕ → Splitter → Splitter
feed zero size value offset s = s
feed (suc fuel) size value offset s =
    let count = min (size - s.held) (length value - offset) in
    let rest =
      feed fuel size value (offset + count)
        (yield_full size (push s (take count (drop offset value)) count)) in
    if ltb offset (length value) then rest else s

unfoldable pub feed_all : ℕ → List Bytes → Splitter → Splitter
feed_all size [] s = s
feed_all size (value ∷ values) s = feed_all size values (feed (length value) size value 0 s)

unfoldable pub finish : Splitter → List Bytes
finish s = if ltb 0 s.held then s.yielded ++ flatten s.pieces ∷ [] else s.yielded

unfoldable pub split_stream : ℕ → List Bytes → Result (List Bytes)
split_stream size values =
    if ltb size 1 then throw range_error else ok (finish (feed_all size values empty_splitter))
