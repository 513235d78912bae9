-- ===== src/Store/Update.antt =====
-- `vec0Update_Update` for an integer key and flat vector columns. Of each vector column an UPDATE gives
-- nothing (NULL: no change), or a value that is a vector or not.
use agos_memory.Base.{ℕ, not, Option, none, some, ◌==◌}
use agos_memory.Store.{
  Config, Call, ok, ◌>>=◌, ◌>>◌, raise_if, from_row, Faults, sqlite_error, sqlite_code,
}
use agos_memory.Store.Steps.{try_call, vectors_row, for_columns, vec0_get_chunk_position}
use agos_memory.Store.Insert.{VectorValue, same_type, as_error, vec0_write_vector_to_vector_blob}

module _ (p : Config) (faults : Faults) where
  unfoldable pub vec0_update_update_vector_column : ℕ → ℕ → ℕ → Option VectorValue → Call (Unit {0})
  unfolding same_type
  vec0_update_update_vector_column chunk_id chunk_offset i value = do
    vector ← from_row sqlite_error value
    raise_if (not (same_type vector.element_type (p.vector_columns i).element_type)) sqlite_error
    raise_if (not (vector.dimensions == (p.vector_columns i).dimensions)) sqlite_error
    blob ← vectors_row p faults i chunk_id sqlite_code
    vec0_write_vector_to_vector_blob p faults i chunk_id chunk_offset vector.data_bytes blob
    try_call p faults sqlite_code

  -- NULL is no change.
  unfoldable pub update_column : ℕ → ℕ → ℕ → Option (Option VectorValue) → Call (Unit {0})
  update_column chunk_id chunk_offset i none t k = (ok tt, t, k)
  update_column chunk_id chunk_offset i (some value) t k =
      as_error (vec0_update_update_vector_column chunk_id chunk_offset i value t k)

  unfoldable pub vec0_update_update : ℕ → (ℕ → Option (Option VectorValue)) → Call (Unit {0})
  vec0_update_update rowid values = do
    position ← vec0_get_chunk_position p faults rowid
    for_columns (λ i. update_column position.0 position.1 i (values i)) p.num_vector_columns 0
