-- ===== src/Prune.antt =====
-- The choice of a graph node's neighbours, crates/sqlite-vec-src/src/sqlite-vec-diskann.c,
-- `diskann_prune_select`. The `u8` and `int` flags are Booleans; `scale` is the product with alpha.
pub mod Flags
pub mod Apart
pub mod Select
use agos_memory.Base.{
  ℕ, zero, suc, ◌+◌, ◌*◌, Bool, true, false, not, List, [], ◌∷◌, Option, none, some, if◌then◌else◌,
  ltb, ◌==◌, set, replicate,
}
use agos_memory.Ranking.{FloatOrder}

-- The first loop of a round: the first active place, for -1 none.
unfoldable pub first_active : ℕ → List Bool → Option ℕ
first_active i [] = none
first_active i (a ∷ active) = let next = first_active (i + 1) active in if a then some i else next

-- The second loop: what the best place prunes.
unfoldable pub prune_pass : (ℕ → Bool) → ℕ → List Bool → List Bool
prune_pass prunes i [] = []
prune_pass prunes i (a ∷ active) =
    let later = prune_pass prunes (i + 1) active in
    (if not a then a else (if prunes i then false else a)) ∷ later

-- The rounds, with those left. `prunes b i` is the test of the second loop.
unfoldable pub prune_rounds : ℕ → ℕ → (ℕ → ℕ → Bool) → List Bool → List Bool → ℕ → List Bool × ℕ
prune_rounds zero max_neighbors prunes active selected count = (selected, count)
prune_rounds (suc left) max_neighbors prunes active selected count =
    elim (if ltb count max_neighbors then first_active 0 active else none) [
      | none ↦ (selected, count)
      | some best ↦
          prune_rounds left max_neighbors prunes
            (prune_pass (prunes best) 0 (set active best false)) (set selected best true)
            (count + 1)
    ]

module _ {F : Type 0} ⦃o : FloatOrder F⦄ where
  abbrev pub prune_test : (F → F) → (ℕ → F) → (ℕ → F) → ℕ → ℕ → ℕ → Bool
  prune_test scale inter_distances p_distances n best i =
      o.le (scale (inter_distances (best * n + i))) (p_distances i)

  -- `outSelected` and `outCount`; none is SQLITE_NOMEM. For no candidates nothing is allocated.
  unfoldable pub diskann_prune_select :
      Bool → (F → F) → (ℕ → F) → (ℕ → F) → ℕ → ℕ → Option (List Bool × ℕ)
  diskann_prune_select allocated scale inter_distances p_distances n max_neighbors =
      if n == 0
      then some ([], 0)
      else (if allocated
          then some (
              prune_rounds n max_neighbors (prune_test scale inter_distances p_distances n)
                (replicate n true) (replicate n false) 0)
          else none)
