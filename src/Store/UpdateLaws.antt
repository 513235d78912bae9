-- ===== src/Store/UpdateLaws.antt =====
-- What `vec0Update_Update` does to the tables.
use agos_memory.Base.{
  ℕ, ◌+◌, ◌*◌, ◌<◌, ◌≡◌, refl, sym, ◌∙◌, ap, subst, arith, not, Option, none, some, ◌==◌, List,
  length,
}
use agos_memory.Nodes.{copy_in}
use agos_memory.Store.{Config, Tables, Faults, update, sqlite_error, sqlite_code}
use agos_memory.Store.Steps.{column_size, put_vectors, for_columns}
use agos_memory.Store.Insert.{VectorValue, same_type}
use agos_memory.Store.Update.{vec0_update_update_vector_column, update_column}
use agos_memory.Store.Maps.{update_same}
use agos_memory.Store.Outcome.{Ends, Ends-attempt_last, Ends-for_columns, Ends-then}
use agos_memory.Store.Rules.{after_if, after_row, after_vectors_row}
use agos_memory.Store.Vectors.{with_vectors, with_vectors-zero, with_vectors-at, with_vectors-next}
use agos_memory.Store.Invariant.{IsConfig, Stored}
use agos_memory.Store.Fill.{overwritten, write_vector_blob-Ends}
use agos_memory.Store.Keys.{Fits}
use agos_memory.Store.Ready.{as_error-Ends}

-- What each column's blob becomes.
abbrev pub replaced : ℕ → ℕ → Option (Option VectorValue) → Option (List ℕ) → Option (List ℕ)
replaced size o none row = row
replaced size o (some none) row = row
replaced size o (some (some v)) row = overwritten size o v.data_bytes row

-- The vector that a row has after.
abbrev pub updated : Option (Option VectorValue) → Option (List ℕ) → Option (List ℕ)
updated none old = old
updated (some none) old = old
updated (some (some v)) old = some v.data_bytes

-- A value that is given fits its column.
abbrev pub FitsIfGiven : Config → Option (Option VectorValue) → ℕ → Type 0
FitsIfGiven p none i = Unit
FitsIfGiven p (some value) i = Fits p value i

-- Writing back what stands there changes nothing.
put_same :
    (i c : ℕ) (row : Option (List ℕ)) (t : Tables) → t.vectors i c ≡ row → put_vectors i c row t ≡ t
put_same i c row t e =
    ap (λ v. record t { vectors = v })
      (ap (update t.vectors i) (update_same (t.vectors i) c row e)
        ∙ update_same t.vectors i (t.vectors i) refl)

module _ (p : Config) (faults : Faults) (w : IsConfig p) (values : ℕ → Option (Option VectorValue))
    (fits : (i : ℕ) → i < p.num_vector_columns → FitsIfGiven p (values i) i) where
  abbrev replacements : ℕ → ℕ → Tables → ℕ → Option (List ℕ)
  replacements c o t i = replaced (column_size p i) o (values i) (t.vectors i c)

  update_vector_column-Ends :
      (c o i : ℕ) (v : Option VectorValue) (blob : List ℕ) (t : Tables) (k : ℕ)
      → i < p.num_vector_columns
      → o < p.chunk_size
      → t.vectors i c ≡ some blob
      → length blob ≡ p.chunk_size * column_size p i
      → (f : Fits p v i)
      → Ends faults
          (λ _ u.
            u ≡ put_vectors i c (some (copy_in (o * column_size p i) f.vector.data_bytes blob)) t)
          (vec0_update_update_vector_column p faults c o i v t k)
  unfolding vec0_update_update_vector_column
  update_vector_column-Ends c o i v blob t k li l at size f =
      after_row p faults _ _ sqlite_error v f.vector t k f.given (
        after_if p faults _ _
          (not (same_type f.vector.element_type (p.vector_columns i).element_type)) sqlite_error t k
          (ap not f.typed)
          (after_if p faults _ _ (not (f.vector.dimensions == (p.vector_columns i).dimensions))
            sqlite_error t k (ground (arith, f.dimensioned))
            (after_vectors_row p faults _ _ i c sqlite_code t k blob at (
              Ends-then faults
                (put_vectors i c (some (copy_in (o * column_size p i) f.vector.data_bytes blob)) t)
                _ _ _
                (write_vector_blob-Ends p faults w i c o f.vector.data_bytes blob t (k + 1) li l
                  size f.whole)
                (λ _ k2. Ends-attempt_last faults _ sqlite_code _ k2 refl)))))

  pub update_columns-Ends :
      (c o : ℕ) (t : Tables) (k : ℕ)
      → o < p.chunk_size
      → Stored p c t
      → Ends faults
          (λ _ u. u ≡ with_vectors p.num_vector_columns c (replacements c o t) t)
          (for_columns (λ i. update_column p faults c o i (values i)) p.num_vector_columns 0 t k)
  unfolding update_column
  update_columns-Ends c o t k l stored =
      Ends-for_columns faults (λ i u. u ≡ with_vectors i c rows t)
        (λ i. update_column p faults c o i (values i)) p.num_vector_columns
        (λ i u k' li h.
          subst
            (λ u.
              Ends faults (λ _ u'. u' ≡ with_vectors (i + 1) c rows t)
                (update_column p faults c o i (values i) u k'))
            (sym h) (round i k' li (values i) refl (fits i li) (stored i li)))
        p.num_vector_columns 0 t k (omega arith) (with_vectors-zero c rows t)
    where
      rows : ℕ → Option (List ℕ)
      rows = replacements c o t

      round :
          (i k' : ℕ)
          → i < p.num_vector_columns
          → (value : Option (Option VectorValue)) → values i ≡ value
          → FitsIfGiven p value i
          → (blob : List ℕ) × (t.vectors i c ≡ some blob)
            × (length blob ≡ p.chunk_size * column_size p i)
          → Ends faults
              (λ _ u'. u' ≡ with_vectors (i + 1) c rows t)
              (update_column p faults c o i value (with_vectors i c rows t) k')
      round i k' li none e f (blob, at, size) =
          sym (
            put_same i c (rows i) (with_vectors i c rows t) (
              with_vectors-at c rows t i
              ∙ sym (ap (λ x. replaced (column_size p i) o x (t.vectors i c)) e)))
          ∙ with_vectors-next c rows t i
      round i k' li (some v) e f (blob, at, size) =
          as_error-Ends p faults w (λ _ u. u ≡ with_vectors (i + 1) c rows t)
            (vec0_update_update_vector_column p faults c o i v (with_vectors i c rows t) k')
            (subst
              (λ x.
                Ends faults (λ _ u. u ≡ x)
                  (vec0_update_update_vector_column p faults c o i v (with_vectors i c rows t) k'))
              (ap (λ r. put_vectors i c r (with_vectors i c rows t)) (sym row)
                ∙ with_vectors-next c rows t i)
              (update_vector_column-Ends c o i v blob (with_vectors i c rows t) k' li l
                (with_vectors-at c rows t i ∙ at) size f))
        where
          row : rows i ≡ some (copy_in (o * column_size p i) f.vector.data_bytes blob)
          row =
              ap (λ x. replaced (column_size p i) o x (t.vectors i c)) (e ∙ ap some f.given)
              ∙ ap (overwritten (column_size p i) o f.vector.data_bytes) at
