-- ===== src/Bytes/Tests.antt =====
-- Runs of the write image.
use opfs.Prelude.{ℕ, ◌≡◌, refl, length, get_elem?, none, some, false, true, [], ◌∷◌}
use opfs.Bytes.{apply_write, get_write_size, append, update, replace}
use opfs.Bytes.Laws.{written, write_position, truncates, get_elem?-apply_write, length-apply_write}

apply_write_runs :
    (apply_write (1 ∷ 2 ∷ 3 ∷ []) (9 ∷ []) update (some 1) false ≡ 1 ∷ 9 ∷ 3 ∷ [])
    × (apply_write (1 ∷ 2 ∷ 3 ∷ []) (9 ∷ []) update (some 1) true ≡ 1 ∷ 9 ∷ [])
    × (apply_write (1 ∷ []) (9 ∷ []) update (some 3) false ≡ 1 ∷ 0 ∷ 0 ∷ 9 ∷ [])
    × (apply_write (1 ∷ []) (9 ∷ []) append none false ≡ 1 ∷ 9 ∷ [])
    × (apply_write (1 ∷ []) (9 ∷ []) replace none false ≡ 9 ∷ [])
unfolding apply_write
apply_write_runs = (refl, refl, refl, refl, refl)

get_elem?-apply_write_example :
    get_elem? (apply_write (1 ∷ []) (9 ∷ []) update (some 3) false) 2
    ≡ written (1 ∷ []) (9 ∷ []) (write_position (1 ∷ []) update (some 3)) (truncates update false) 2
get_elem?-apply_write_example = get_elem?-apply_write (1 ∷ []) (9 ∷ []) update (some 3) false 2

length-apply_write_example :
    length (apply_write (1 ∷ []) (9 ∷ []) update (some 3) false)
    ≡ get_write_size (length {A = ℕ} (1 ∷ [])) (length {A = ℕ} (9 ∷ [])) update (some 3) false
length-apply_write_example = length-apply_write (1 ∷ []) (9 ∷ []) update (some 3) false
