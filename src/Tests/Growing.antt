-- ===== src/Tests/Growing.antt =====
-- An array of two-byte elements that is full.
use agos_memory.Base.{◌≡◌, refl, [], ◌∷◌, some, replicate, arith}
use agos_memory.Array.{Array, array_append}
use agos_memory.Array.Append.{IsArray, Appends, array_append-Appends}

abbrev full : Array
full = record { element_size = 2; length = 1; capacity = 1; z = 7 ∷ 8 ∷ [] }

full-IsArray : IsArray full
full-IsArray = record { size = refl; within = omega arith }

array_append-Appends_example :
    (after : Array) × (array_append full (some (replicate 202 0)) (5 ∷ 6 ∷ []) ≡ some after)
    × Appends full (5 ∷ 6 ∷ []) after
array_append-Appends_example =
    array_append-Appends full (replicate 202 0) (5 ∷ 6 ∷ []) full-IsArray refl refl
