-- ===== src/Knn/Candidates.antt =====
-- The specification of the search: which rows it chooses among, and at what distance.
use agos_memory.Base.{
  ℕ, zero, suc, ◌≤◌, ◌<◌, ◌≡◌, refl, ap, inl, inr, Bool, true, ◌&&◌, List, [], ◌∷◌, ◌++◌, Option,
  none, some, map, arith, Bool-cases, length,
}
use agos_memory.Bitmap.{has}
use agos_memory.MinIdx.Positions.{positions}
use agos_memory.Ranking.{FloatOrder, Hit}
use agos_memory.Knn.{Chunk, Query}
use agos_memory.Knn.Filter.{rowid_ok, metadata_ok, distance_ok}

module _ {F R V M : Type 0} ⦃o : FloatOrder F⦄ (q : Query F R V M) where
  abbrev pub distance_at : Chunk R V → ℕ → F
  distance_at chunk j = q.distance_to (chunk.vectors.at j)

  -- A slot counts if it holds a row, the row is asked for, and it passes every constraint.
  abbrev pub selected : Chunk R V → ℕ → Bool
  selected chunk j =
      has chunk.validity j
      && rowid_ok q.bsearch chunk q.rowids_in j
      && metadata_ok q.metadata_filter q.args chunk j
      && distance_ok q.args (distance_at chunk j)

  abbrev pub row_at : Chunk R V → ℕ → Hit F R
  row_at chunk j = record { distance = distance_at chunk j; rowid = chunk.rowids.at j }

  abbrev pub candidates : Chunk R V → List (Hit F R)
  candidates chunk = map (row_at chunk) (positions q.chunk_size (selected chunk))

  -- The candidates of all chunks; a row that could not be read has none.
  abbrev pub all_candidates : List (Option (Chunk R V)) → List (Hit F R)
  all_candidates [] = []
  all_candidates (none ∷ rows) = all_candidates rows
  all_candidates (some chunk ∷ rows) = candidates chunk ++ all_candidates rows

pub length-positions : (n : ℕ) (p : ℕ → Bool) → length (positions n p) ≤ n
length-positions zero p = omega arith
length-positions (suc n) p = ground (arith, length-positions n p)

-- Functions that agree on the accepted places have the same image.
pub map-positions :
    {A : Type 0} (n : ℕ) (p : ℕ → Bool) (f g : ℕ → A)
    → ((j : ℕ) → j < n → p j ≡ true → f j ≡ g j)
    → map f (positions n p) ≡ map g (positions n p)
map-positions zero p f g h = refl
map-positions (suc n) p f g h = elim (Bool-cases (p n)) [
  | inl on ↦
      rw (on, h n (omega arith) on)
        (ap (◌∷◌ (g n)) (map-positions n p f g (λ j l. h j (omega arith))))
  | inr off ↦ rw off (map-positions n p f g (λ j l. h j (omega arith)))
]
