-- ===== src/Chunk/Tests.antt =====
-- A stream of five bytes in chunks of two.
use mathlib.Core.List.{flatten}
use opfs.Prelude.{◌≡◌, refl, arith, List, [], ◌∷◌}
use opfs.Failure.{ok}
use opfs.Bytes.{Bytes}
use opfs.Chunk.{split_stream, finish, feed_all, feed, push, yield_full}
use opfs.Chunk.Content.{IsSplit, split_stream-IsSplit}

abbrev received : List Bytes
received = (1 ∷ []) ∷ [] ∷ (2 ∷ 3 ∷ 4 ∷ []) ∷ (5 ∷ []) ∷ []

abbrev parts : List Bytes
parts = (1 ∷ 2 ∷ []) ∷ (3 ∷ 4 ∷ []) ∷ (5 ∷ []) ∷ []

received_split : split_stream 2 received ≡ ok parts
unfolding split_stream finish feed_all feed push yield_full flatten
received_split = refl

split_stream-IsSplit_example :
    (chunks : List Bytes) × (split_stream 2 received ≡ ok chunks)
    × IsSplit 2 (flatten received) chunks
split_stream-IsSplit_example = split_stream-IsSplit 2 received (omega arith)
