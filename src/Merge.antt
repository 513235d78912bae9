-- ===== src/Merge.antt =====
-- `merge_sorted_lists` of crates/sqlite-vec-src/src/sqlite-vec.c, which joins the hits found so far
-- with those of one more chunk.
pub mod Top
use agos_memory.Base.{ℕ, zero, suc, List, [], ◌∷◌, if◌then◌else◌}
use agos_memory.Ranking.{FloatOrder, Hit}

module _ {F R : Type 0} ⦃o : FloatOrder F⦄ where
  -- The hit at place `i` of the parallel arrays `b` and `b_rowids`.
  abbrev pub hit_at : (ℕ → F) → (ℕ → R) → ℕ → Hit F R
  hit_at b b_rowids i = record { distance = b i; rowid = b_rowids i }

  -- The rounds left to write stand first. `a` is what `ptrA` has not passed of the arrays `a` and
  -- `a_rowids`, the list of places what `ptrB` has not passed of `b_top_idxs`. The result is what
  -- is written to `out` and `out_rowids`, and `out_used` is its length.
  unfoldable pub merge_sorted_lists :
      (ℕ → F) → (ℕ → R) → ℕ → List (Hit F R) → List ℕ → List (Hit F R)
  merge_sorted_lists b b_rowids zero a top = []
  merge_sorted_lists b b_rowids (suc left) [] [] = []
  merge_sorted_lists b b_rowids (suc left) [] (j ∷ js) =
      hit_at b b_rowids j ∷ merge_sorted_lists b b_rowids left [] js
  merge_sorted_lists b b_rowids (suc left) (x ∷ xs) [] =
      x ∷ merge_sorted_lists b b_rowids left xs []
  merge_sorted_lists b b_rowids (suc left) (x ∷ xs) (j ∷ js) =
      let from_a = x ∷ merge_sorted_lists b b_rowids left xs (j ∷ js) in
      let from_b = hit_at b b_rowids j ∷ merge_sorted_lists b b_rowids left (x ∷ xs) js in
      if o.le x.distance (b j) then from_a else from_b
