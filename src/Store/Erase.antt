-- ===== src/Store/Erase.antt =====
-- What each step of `vec0Update_Delete` does to the tables.
use agos_memory.Base.{
  ℕ, ◌+◌, ◌*◌, ◌/◌, ◌%◌, ◌^◌, ◌<◌, ◌≡◌, refl, sym, ◌∙◌, subst, arith, Bool, true, false, not,
  Option, none, some, if◌then◌else◌, ◌==◌, List, length, get_or, set, replicate, bit_and,
  bit_and-one,
}
use agos_memory.Bitmap.{bitmap_set, bitmap_get, has}
use agos_memory.Nodes.{copy_in}
use agos_memory.Nodes.Bytes.{slot_reach}
use agos_memory.Store.{
  Config, Chunk, Tables, Faults, ◌>>◌, return, sqlite_error, sqlite_nomem, sqlite_code,
  sqlite_empty,
}
use agos_memory.Store.Steps.{
  column_size, put_chunk, put_rowid, put_vectors, for_columns, vec0_get_chunk_position, position_of,
}
use agos_memory.Store.Delete.{
  all_zero, clear_vector, delete_from, vec0_update_delete_clear_validity,
  vec0_update_delete_clear_rowid, vec0_update_delete_clear_vectors,
  vec0_update_delete_delete_chunk_if_empty, vec0_update_delete_delete_rowids,
}
use agos_memory.Store.Outcome.{Ends, Ends-attempt, Ends-attempt_last, Ends-for_columns, Ends-then}
use agos_memory.Store.Rules.{
  after_if, after_row, after_chunk_row, after_vectors_row, after_malloc, after_reach,
}
use agos_memory.Store.Vectors.{with_vectors, with_vectors-zero, with_vectors-at, with_vectors-next}
use agos_memory.Store.Invariant.{IsConfig, IsSized, Stored}

-- A slot in use has a byte that is not zero from its bit on.
has-shifted :
    (byte j : ℕ) → not (bit_and (byte / 2 ^ j) 1 == 0) ≡ true → (byte / 2 ^ j == 0) ≡ false
has-shifted byte j h = ground (arith, bit_and-one (byte / 2 ^ j))

-- The vector of the slot zeroed, in the blob of a column.
abbrev pub zeroed : ℕ → ℕ → Option (List ℕ) → Option (List ℕ)
zeroed size o none = none
zeroed size o (some blob) = some (copy_in (o * size) (replicate size 0) blob)

-- A chunk and its vectors taken out.
abbrev pub dropped : Config → ℕ → Tables → Tables
dropped p c t = with_vectors p.num_vector_columns c (λ _. none) (put_chunk c none t)

module _ (p : Config) (faults : Faults) where
  pub vec0_get_chunk_position-Ends :
      (rowid : ℕ) (place : Option (ℕ × ℕ)) (t : Tables) (k : ℕ)
      → t.rowids rowid ≡ some place
      → Ends faults
          (λ q u. (q ≡ position_of place) × (u ≡ t))
          (vec0_get_chunk_position p faults rowid t k)
  unfolding vec0_get_chunk_position
  vec0_get_chunk_position-Ends rowid place t k e = Ends-attempt faults _ _ sqlite_code t k (
      Ends-attempt faults _ _ sqlite_code t (k + 1)
        (after_row p faults _ _ sqlite_empty (t.rowids rowid) place t (k + 1 + 1) e (refl, refl)))

  module _ (c o : ℕ) (chunk : Chunk) (t : Tables) (k : ℕ) (here : t.chunks c ≡ some chunk)
      (s : IsSized p chunk) (w : IsConfig p) (l : o < p.chunk_size) where
    pub clear_validity-Ends :
        has chunk.validity o ≡ true
        → Ends faults
            (λ _ u.
              u ≡ put_chunk c (some (record chunk { validity = bitmap_set chunk.validity o 0 })) t)
            (vec0_update_delete_clear_validity p faults c o t k)
    unfolding vec0_update_delete_clear_validity bitmap_set bitmap_get
    clear_validity-Ends v = after_chunk_row p faults _ _ c sqlite_error t k chunk here (
        after_reach p faults _ _ (length chunk.validity) 1 (o / 8) sqlite_code t (k + 1)
          (omega (arith, s.validity_size, w.whole_bytes))
          (after_if p faults _ _ (get_or chunk.validity (o / 8) 0 / 2 ^ (o % 8) == 0) sqlite_error t
            _ (has-shifted (get_or chunk.validity (o / 8) 0) (o % 8) v)
            (Ends-attempt faults _ _ sqlite_code t _
              (Ends-attempt_last faults _ sqlite_code _ _ (rw here refl)))))

    pub clear_rowid-Ends :
        Ends faults
          (λ _ u. u ≡ put_chunk c (some (record chunk { rowids = set chunk.rowids o 0 })) t)
          (vec0_update_delete_clear_rowid p faults c o t k)
    unfolding vec0_update_delete_clear_rowid
    clear_rowid-Ends = after_chunk_row p faults _ _ c sqlite_error t k chunk here (
        after_reach p faults _ _ (length chunk.rowids * 8) 8 (o * 8) sqlite_code t (k + 1)
          (omega (arith, s.rowids_size))
          (Ends-attempt_last faults _ sqlite_code _ _ (rw here refl)))

  pub clear_vectors-Ends :
      (c o : ℕ) (t : Tables) (k : ℕ)
      → IsConfig p
      → o < p.chunk_size
      → Stored p c t
      → Ends faults
          (λ _ u.
            u
            ≡ with_vectors p.num_vector_columns c
                (λ i. zeroed (column_size p i) o (t.vectors i c))
                t)
          (vec0_update_delete_clear_vectors p faults c o t k)
  unfolding vec0_update_delete_clear_vectors clear_vector
  clear_vectors-Ends c o t k w l stored =
      Ends-for_columns faults (λ i u. u ≡ with_vectors i c rows t) (clear_vector p faults c o)
        p.num_vector_columns
        (λ i u k' li h.
          subst
            (λ u.
              Ends faults (λ _ u'. u' ≡ with_vectors (i + 1) c rows t)
                (clear_vector p faults c o i u k'))
            (sym h) (round i k' li (stored i li)))
        p.num_vector_columns 0 t k (omega arith) (with_vectors-zero c rows t)
    where
      rows : ℕ → Option (List ℕ)
      rows i = zeroed (column_size p i) o (t.vectors i c)

      round :
          (i k' : ℕ)
          → i < p.num_vector_columns
          → (blob : List ℕ) × (t.vectors i c ≡ some blob)
            × (length blob ≡ p.chunk_size * column_size p i)
          → Ends faults
              (λ _ u'. u' ≡ with_vectors (i + 1) c rows t)
              (clear_vector p faults c o i (with_vectors i c rows t) k')
      round i k' li (blob, at, size) =
          after_vectors_row p faults _ _ i c sqlite_error (with_vectors i c rows t) k' blob
            (with_vectors-at c rows t i ∙ at)
            (after_malloc p faults _ _ (column_size p i) sqlite_nomem _ _ (w.some_bytes i li) (
              after_reach p faults _ _ (length blob) (column_size p i) (o * column_size p i)
                sqlite_code _ _ (omega (arith, size, slot_reach p.chunk_size (column_size p i) o l))
                (Ends-attempt_last faults _ sqlite_code _ _ (
                  subst
                    (λ r.
                      put_vectors i c r (with_vectors i c rows t) ≡ with_vectors (i + 1) c rows t)
                    (written (t.vectors i c) blob at) (with_vectors-next c rows t i)))))
        where
          written :
              (row : Option (List ℕ)) (blob : List ℕ)
              → row ≡ some blob
              → zeroed (column_size p i) o row
                ≡ some (copy_in (o * column_size p i) (replicate (column_size p i) 0) blob)
          written row blob e = rw e refl

  delete_from-Ends :
      (f : Tables → Tables) (t : Tables) (k : ℕ)
      → Ends faults (λ _ u. u ≡ f t) (delete_from p faults f t k)
  unfolding delete_from
  delete_from-Ends f t k =
      Ends-attempt faults _ _ sqlite_nomem t k
        (Ends-attempt faults _ _ sqlite_code t _ (Ends-attempt faults _ _ sqlite_error t _ refl))

  pub delete_rowids-Ends :
      (rowid : ℕ) (t : Tables) (k : ℕ)
      → Ends faults
          (λ _ u. u ≡ put_rowid rowid none t)
          (vec0_update_delete_delete_rowids p faults rowid t k)
  unfolding vec0_update_delete_delete_rowids
  delete_rowids-Ends rowid t k =
      Ends-attempt faults _ _ sqlite_nomem t k
        (Ends-attempt faults _ _ sqlite_code t _ (Ends-attempt faults _ _ sqlite_code t _ refl))

  drop_columns :
      (c : ℕ) (t : Tables) (k : ℕ)
      → Ends faults
          (λ _ u. u ≡ with_vectors p.num_vector_columns c (λ _. none) t)
          (for_columns
            (λ i. delete_from p faults (put_vectors i c none))
            p.num_vector_columns
            0
            t
            k)
  drop_columns c t k =
      Ends-for_columns faults (λ i u. u ≡ with_vectors i c (λ _. none) t)
        (λ i. delete_from p faults (put_vectors i c none)) p.num_vector_columns
        (λ i u k' li h.
          subst
            (λ v.
              Ends faults (λ _ u'. u' ≡ with_vectors (i + 1) c (λ _. none) t)
                (delete_from p faults (put_vectors i c none) v k'))
            (sym h) (round i k'))
        p.num_vector_columns 0 t k (omega arith) (with_vectors-zero c (λ _. none) t)
    where
      round :
          (i k' : ℕ)
          → Ends faults
              (λ _ u'. u' ≡ with_vectors (i + 1) c (λ _. none) t)
              (delete_from p faults (put_vectors i c none) (with_vectors i c (λ _. none) t) k')
      round i k' =
          subst
            (λ v.
              Ends faults (λ _ u'. u' ≡ v)
                (delete_from p faults (put_vectors i c none) (with_vectors i c (λ _. none) t) k'))
            (with_vectors-next c (λ _. none) t i)
            (delete_from-Ends (put_vectors i c none) (with_vectors i c (λ _. none) t) k')

  pub delete_chunk_if_empty-Ends :
      (c : ℕ) (chunk : Chunk) (t : Tables) (k : ℕ)
      → t.chunks c ≡ some chunk
      → 0 < length chunk.validity
      → Ends faults
          (λ _ u. u ≡ (if all_zero chunk.validity then dropped p c t else t))
          (vec0_update_delete_delete_chunk_if_empty p faults c t k)
  unfolding vec0_update_delete_delete_chunk_if_empty
  delete_chunk_if_empty-Ends c chunk t k here l =
      after_chunk_row p faults _ _ c sqlite_error t k chunk here (
        after_malloc p faults _ _ (length chunk.validity) sqlite_nomem t _ l (
          Ends-attempt faults _ _ sqlite_code t _
            (Ends-attempt faults _ _ sqlite_code t _ (choose (all_zero chunk.validity) _))))
    where
      base : Tables
      base = put_chunk c none t

      choose :
          (b : Bool) (k : ℕ)
          → Ends faults
              (λ _ u. u ≡ (if b then dropped p c t else t))
              ((if b
                  then delete_from p faults (put_chunk c none)
                    >> for_columns
                        (λ i. delete_from p faults (put_vectors i c none))
                        p.num_vector_columns
                        0
                    >> return true
                  else return false)
                t k)
      choose true k =
          Ends-then faults (dropped p c t) _ _ _
            (Ends-then faults base _ _ _ (delete_from-Ends (put_chunk c none) t k)
              (λ _ k'. drop_columns c base k'))
            (λ _ k'. refl)
      choose false k = refl
