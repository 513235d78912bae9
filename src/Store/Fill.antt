-- ===== src/Store/Fill.antt =====
-- What the steps of `vec0Update_InsertWriteFinalStep` do to the tables.
use agos_memory.Base.{
  ℕ, ◌+◌, ◌*◌, ◌/◌, ◌%◌, ◌<◌, ◌≡◌, refl, sym, ◌∙◌, ap, subst, arith, not, Option, none, some, ◌==◌,
  List, length, set, take, take-all,
}
use agos_memory.Bitmap.{bitmap_set}
use agos_memory.Nodes.{copy_in}
use agos_memory.Nodes.Bytes.{slot_reach}
use agos_memory.Store.{
  ElementType, float32, int8, bit, vector_byte_size, vector_column_byte_size, Config, Chunk, Tables,
  Faults, sqlite_code, sqlite_error,
}
use agos_memory.Store.Steps.{column_size, put_vectors, for_columns}
use agos_memory.Store.Insert.{
  vector_write_size, vector_write_offset, write_vector, vec0_write_vector_to_vector_blob,
}
use agos_memory.Store.Outcome.{Ends, Ends-attempt_last, Ends-for_columns, Ends-then}
use agos_memory.Store.Rules.{after_if, after_vectors_row, after_reach}
use agos_memory.Store.Vectors.{with_vectors, with_vectors-zero, with_vectors-at, with_vectors-next}
use agos_memory.Store.Invariant.{IsConfig, Stored}

-- The size and the offset of the write are those of the slot.
write_size :
    (type : ElementType) (dimensions : ℕ)
    → vector_write_size type dimensions ≡ vector_byte_size type dimensions
unfolding vector_write_size vector_byte_size
write_size float32 dimensions = refl
write_size int8 dimensions = refl
write_size bit dimensions = refl

write_offset :
    (type : ElementType) (dimensions o : ℕ)
    → (type ≡ bit → dimensions % 8 ≡ 0)
    → vector_write_offset type dimensions o ≡ o * vector_byte_size type dimensions
unfolding vector_write_offset vector_byte_size
write_offset float32 dimensions o h = omega arith
write_offset int8 dimensions o h = refl
write_offset bit dimensions o h =
    let whole : dimensions ≡ dimensions / 8 * 8 = omega (arith, h refl) in
    subst (λ d. o * d / 8 ≡ o * (dimensions / 8)) (sym whole)
      (subst (λ m. m / 8 ≡ o * (dimensions / 8)) (omega arith) (eighth (o * (dimensions / 8))))
  where
    eighth : (m : ℕ) → m * 8 / 8 ≡ m
    eighth m = omega arith

-- A chunk whose slot is taken by a row.
abbrev pub taken : ℕ → ℕ → Chunk → Chunk
taken o rowid chunk = record {
  validity = bitmap_set chunk.validity o 1;
  rowids = set chunk.rowids o rowid;
}

abbrev pub overwritten : ℕ → ℕ → List ℕ → Option (List ℕ) → Option (List ℕ)
overwritten size o bytes none = none
overwritten size o bytes (some blob) = some (copy_in (o * size) bytes blob)

abbrev pub overwrites : Config → (ℕ → List ℕ) → ℕ → ℕ → Tables → ℕ → Option (List ℕ)
overwrites p vector_datas c o t i = overwritten (column_size p i) o (vector_datas i) (t.vectors i c)

-- A vector is written to its slot of an open blob.
pub write_vector_blob-Ends :
    (p : Config) (faults : Faults) (w : IsConfig p) (i c o : ℕ) (bytes blob : List ℕ) (t : Tables)
    (k : ℕ)
    → i < p.num_vector_columns
    → o < p.chunk_size
    → length blob ≡ p.chunk_size * column_size p i
    → length bytes ≡ column_size p i
    → Ends faults
        (λ _ u. u ≡ put_vectors i c (some (copy_in (o * column_size p i) bytes blob)) t)
        (vec0_write_vector_to_vector_blob p faults i c o bytes blob t k)
unfolding vec0_write_vector_to_vector_blob vector_column_byte_size
write_vector_blob-Ends p faults w i c o bytes blob t k li l size whole =
    after_reach p faults _ _ (length blob) n offset sqlite_error t k
      (omega (arith, size, n_size, at_slot, slot_reach p.chunk_size (column_size p i) o l))
      (λ s. put_vectors i c (some (copy_in (at_slot s) (all s) blob)) t)
  where
    n : ℕ
    n = vector_write_size (p.vector_columns i).element_type (p.vector_columns i).dimensions

    offset : ℕ
    offset = vector_write_offset (p.vector_columns i).element_type (p.vector_columns i).dimensions o

    n_size : n ≡ column_size p i
    n_size = write_size (p.vector_columns i).element_type (p.vector_columns i).dimensions

    at_slot : offset ≡ o * column_size p i
    at_slot =
        write_offset (p.vector_columns i).element_type (p.vector_columns i).dimensions o
          (w.whole_vectors i li)

    all : take n bytes ≡ bytes
    all = take-all n bytes (omega (arith, n_size, whole))

module _ (p : Config) (faults : Faults) (w : IsConfig p) (vector_datas : ℕ → List ℕ)
    (whole : (i : ℕ) → i < p.num_vector_columns → length (vector_datas i) ≡ column_size p i) where
  pub write_vectors-Ends :
      (c o : ℕ) (t : Tables) (k : ℕ)
      → o < p.chunk_size
      → Stored p c t
      → Ends faults
          (λ _ u. u ≡ with_vectors p.num_vector_columns c (overwrites p vector_datas c o t) t)
          (for_columns (write_vector p faults vector_datas c o) p.num_vector_columns 0 t k)
  unfolding write_vector
  write_vectors-Ends c o t k l stored =
      Ends-for_columns faults (λ i u. u ≡ with_vectors i c rows t)
        (write_vector p faults vector_datas c o) p.num_vector_columns
        (λ i u k' li h.
          subst
            (λ u.
              Ends faults (λ _ u'. u' ≡ with_vectors (i + 1) c rows t)
                (write_vector p faults vector_datas c o i u k'))
            (sym h) (round i k' li (stored i li)))
        p.num_vector_columns 0 t k (omega arith) (with_vectors-zero c rows t)
    where
      rows : ℕ → Option (List ℕ)
      rows = overwrites p vector_datas c o t

      round :
          (i k' : ℕ)
          → i < p.num_vector_columns
          → (blob : List ℕ) × (t.vectors i c ≡ some blob)
            × (length blob ≡ p.chunk_size * column_size p i)
          → Ends faults
              (λ _ u'. u' ≡ with_vectors (i + 1) c rows t)
              (write_vector p faults vector_datas c o i (with_vectors i c rows t) k')
      round i k' li (blob, at, size) =
          after_vectors_row p faults _ _ i c sqlite_code (with_vectors i c rows t) k' blob
            (with_vectors-at c rows t i ∙ at)
            (after_if p faults _ _ (not (length blob == p.chunk_size * column_size p i))
              sqlite_error _ _ (ground (arith, size))
              (Ends-then faults
                (put_vectors i c (some (copy_in (o * column_size p i) (vector_datas i) blob))
                  (with_vectors i c rows t))
                _ _ _
                (write_vector_blob-Ends p faults w i c o (vector_datas i) blob
                  (with_vectors i c rows t) (k' + 1) li l size (whole i li))
                (λ _ k2. Ends-attempt_last faults _ sqlite_error _ k2 (
                  subst
                    (λ r.
                      put_vectors i c r (with_vectors i c rows t) ≡ with_vectors (i + 1) c rows t)
                    (ap (overwritten (column_size p i) o (vector_datas i)) at)
                    (with_vectors-next c rows t i)))))
