-- ===== src/Store/Vectors.antt =====
-- The vector rows of one chunk, in every column: what the loops over the columns write.
use agos_memory.Base.{
  ℕ, ◌+◌, ◌≡◌, arith, ◌&&◌, Option, if◌then◌else◌, ◌==◌, ltb, List, Bool-cases, ==_iff, inl, inr,
}
use agos_memory.Store.{Tables}
use agos_memory.Store.Steps.{put_vectors}

-- The rows of a chunk in the columns below `n` replaced.
abbrev pub with_vectors : ℕ → ℕ → (ℕ → Option (List ℕ)) → Tables → Tables
with_vectors n c row t = record t {
  vectors = λ i j. if ltb i n && j == c then row i else t.vectors i j;
}

Vectors-path :
    (t : Tables) (v w : ℕ → ℕ → Option (List ℕ))
    → ((i j : ℕ) → v i j ≡ w i j)
    → Path Tables (record t { vectors = v }) (record t { vectors = w })
Vectors-path t v w h = λ s. record t { vectors = λ i j. h i j s }

module _ (c : ℕ) (row : ℕ → Option (List ℕ)) (t : Tables) where
  pub with_vectors-zero : t ≡ with_vectors 0 c row t
  with_vectors-zero =
      Vectors-path t t.vectors (with_vectors 0 c row t).vectors (λ i j. ground arith)

  pub with_vectors-at : (n : ℕ) → (with_vectors n c row t).vectors n c ≡ t.vectors n c
  with_vectors-at n = ground arith

  pub with_vectors-next :
      (n : ℕ) → put_vectors n c (row n) (with_vectors n c row t) ≡ with_vectors (n + 1) c row t
  with_vectors-next n =
      Vectors-path t (put_vectors n c (row n) (with_vectors n c row t)).vectors
        (with_vectors (n + 1) c row t).vectors (λ i j. cell i j)
    where
      cell :
          (i j : ℕ)
          → (put_vectors n c (row n) (with_vectors n c row t)).vectors i j
            ≡ (with_vectors (n + 1) c row t).vectors i j
      cell i j = elim (Bool-cases (i == n)) [
        | inl e ↦ (let same : i ≡ n = (==_iff i n).0 e in rw same (ground arith))
        | inr e ↦ ground arith
      ]
