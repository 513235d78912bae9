-- ===== src/Store/Read.antt =====
-- `vec0_get_vector_data` on a flat column: a row's vector read back.
use agos_memory.Base.{ℕ, ◌*◌, ◌<◌, ◌≡◌, refl, sym, ◌∙◌, ap, arith, some, List, length}
use agos_memory.Nodes.{copy_out}
use agos_memory.Nodes.Bytes.{slot_reach}
use agos_memory.Store.{
  Config, Tables, Call, ◌>>=◌, ◌>>◌, return, Faults, sqlite_code, sqlite_error, sqlite_nomem,
}
use agos_memory.Store.Steps.{
  try_call, sqlite3_malloc, vectors_row, blob_reach, column_size, vec0_get_chunk_position,
}
use agos_memory.Store.Outcome.{Ends, Ends-attempt, Ends-gives}
use agos_memory.Store.Rules.{after_vectors_row, after_malloc, after_reach}
use agos_memory.Store.Invariant.{IsConfig, IsStore, find, stored_at, slice}
use agos_memory.Store.Erase.{vec0_get_chunk_position-Ends}

module _ (p : Config) (faults : Faults) where
  unfoldable pub vec0_get_vector_data : ℕ → ℕ → Call (List ℕ)
  vec0_get_vector_data rowid vector_column_idx = do
    position ← vec0_get_chunk_position p faults rowid
    blob ← vectors_row p faults vector_column_idx position.0 sqlite_error
    sqlite3_malloc p faults (column_size p vector_column_idx) sqlite_nomem
    blob_reach p faults (length blob) (column_size p vector_column_idx)
        (position.1 * column_size p vector_column_idx) sqlite_error
    try_call p faults sqlite_code
    return (
        copy_out (position.1 * column_size p vector_column_idx) (column_size p vector_column_idx)
          blob)

  -- In tables that keep the invariant, reading a column of a row with a place gives the vector that is
  -- found for it and changes nothing; it ends otherwise only when something it calls has failed.
  pub vec0_get_vector_data-find :
      (w : IsConfig p) (t : Tables) (st : IsStore p t) (rowid c o i k : ℕ)
      → t.rowids rowid ≡ some (some (c, o))
      → i < p.num_vector_columns
      → Ends faults
          (λ v u. (some v ≡ find p t i rowid) × (u ≡ t))
          (vec0_get_vector_data rowid i t k)
  unfolding vec0_get_vector_data find
  vec0_get_vector_data-find w t st rowid c o i k e l =
      let h = st.slot_of rowid c o e in
      let (blob, at, size) = st.shape.stored c h.chunk h.at i l in
      Ends-gives faults (c, o) t _ _ _
        (vec0_get_chunk_position-Ends p faults rowid (some (c, o)) t k e)
        (λ k1. after_vectors_row p faults _ _ i c sqlite_error t k1 blob at (
          after_malloc p faults _ _ (column_size p i) sqlite_nomem t _ (w.some_bytes i l) (
            after_reach p faults _ _ (length blob) (column_size p i) (o * column_size p i)
              sqlite_error t _
              (omega (arith, size, slot_reach p.chunk_size (column_size p i) o h.within))
              (Ends-attempt faults _ _ sqlite_code t _
                (sym (ap (stored_at p t i) e ∙ ap (slice (column_size p i) o) at), refl)))))
