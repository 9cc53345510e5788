-- ===== src/Bytes.antt =====
-- Byte arrays, and the byte image that one write produces (`applyWrite` of src/adapter/record.ts,
-- `getWriteSize` of src/filesystem.ts). A `Uint8Array` is the list of its bytes.
use opfs.Prelude.{
  ℕ, ◌+◌, ◌-◌, Option, none, some, Bool, true, false, List, [], ◌∷◌, ◌++◌, length, take, drop,
  replicate, min, max, if◌then◌else◌,
}
pub mod Laws
pub mod Tests

abbrev pub Bytes : Type 0
Bytes = List ℕ

-- `WriteModeType`.
pub data WriteMode : Type 0 where
  replace append update : WriteMode

-- `value ?? fallback`.
abbrev pub or_else {ℓ} : {A : Type ℓ} → Option A → A → A
or_else none d = d
or_else (some a) d = a

-- `bytes.slice(start, end)`, `bytes.subarray(start, end)`.
abbrev pub slice : Bytes → ℕ → ℕ → Bytes
slice bytes start end = take (end - start) (drop start bytes)

-- `output.set(source, position)` where the source fits.
abbrev pub blit : Bytes → Bytes → ℕ → Bytes
blit output source position =
    take position output ++ (source ++ drop (position + length source) output)

-- The image of a write at a position, the array filled with zeros first.
abbrev pub write_image : Bytes → Bytes → ℕ → Bool → Bytes
write_image existing bytes position truncate =
    let size = max (length existing) (position + length bytes) in
    let output = blit (blit (replicate size 0) existing 0) bytes position in
    if truncate then slice output 0 (position + length bytes) else output

unfoldable pub apply_write : Bytes → Bytes → WriteMode → Option ℕ → Bool → Bytes
apply_write existing bytes replace at truncate = bytes
apply_write existing bytes append at truncate =
    write_image existing bytes (length existing) truncate
apply_write existing bytes update at truncate = write_image existing bytes (or_else at 0) truncate

unfoldable pub get_write_size : ℕ → ℕ → WriteMode → Option ℕ → Bool → ℕ
get_write_size current input replace at truncate = input
get_write_size current input append at truncate =
    let end = current + input in if truncate then end else max current end
get_write_size current input update at truncate =
    let end = or_else at 0 + input in if truncate then end else max current end
