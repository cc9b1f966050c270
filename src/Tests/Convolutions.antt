-- ===== src/Tests/Convolutions.antt =====
-- A signal of one batch, one channel and three entries, with one zero between each two.
use nx_tinygrad.Base.{ℕ, ◌+◌, ◌≡◌, refl, List, [], ◌∷◌, some, none, arith}
use nx_tinygrad.Errors.{ok}
use nx_tinygrad.Ops.Conv.{dilate}
use nx_tinygrad.Ops.Conv.Axis.{dilated_size}
use nx_tinygrad.Ops.Conv.Dilated.{dilate_lem, dilated_sizes, source, entry}
use nx_tinygrad.Tests.Arrays.{Array, arrays, arrays-DilationLaws}

abbrev last_coordinate : List ℕ → ℕ
last_coordinate (b ∷ c ∷ i ∷ []) = i + 7
last_coordinate idx = 0

abbrev signal : Array
signal = record { dims = 1 ∷ 1 ∷ 3 ∷ []; at = last_coordinate }

dilate_lem_example :
    (t' : Array) × (dilate arrays 2 (2 ∷ []) signal ≡ ok t')
    × (t'.dims ≡ 1 ∷ 1 ∷ dilated_sizes (2 ∷ []) (3 ∷ []))
    × (t'.at (0 ∷ 0 ∷ 4 ∷ [])
        ≡ entry (λ (t : Array). t.at) 0 signal (0 ∷ 0 ∷ []) (source (2 ∷ []) (4 ∷ [])))
unfolding dilated_sizes dilated_size
dilate_lem_example =
    dilate_lem arrays (λ t. t.at) 0 arrays-DilationLaws (2 ∷ []) (3 ∷ []) 1 1 signal 0 0 (4 ∷ [])
      refl (omega arith) (omega arith) (omega arith) (omega arith, tt)

-- The sizes and entries of the dilated signal: 7 0 8 0 9.
signal_dilated :
    (dilated_sizes (2 ∷ []) (3 ∷ []) ≡ 5 ∷ [])
    × (source (2 ∷ []) (4 ∷ []) ≡ some (2 ∷ []))
    × (source (2 ∷ []) (3 ∷ []) ≡ none)
unfolding dilated_sizes dilated_size source
signal_dilated = (refl, refl, refl)
