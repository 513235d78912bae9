-- ===== src/Store/Delete.antt =====
-- `vec0Update_Delete` and its steps. A failed write is followed by a close, which changes nothing and
-- is left out.
use agos_memory.Base.{
  ℕ, ◌*◌, ◌/◌, ◌%◌, ◌^◌, Bool, true, false, ◌&&◌, [], ◌∷◌, none, some, if◌then◌else◌, ◌==◌, length,
  get_or, replicate,
}
use agos_memory.Bitmap.{Bitmap, char_bit, byte_off}
use agos_memory.Nodes.{copy_in}
use agos_memory.Store.{
  Config, Tables, sqlite_error, sqlite_nomem, sqlite_code, Call, ◌>>=◌, ◌>>◌, return, raise_if,
  modify, Faults,
}
use agos_memory.Store.Steps.{
  try_call, sqlite3_malloc, chunk_row, vectors_row, blob_reach, column_size, put_chunk, put_vectors,
  put_rowid, for_columns, vec0_get_chunk_position, write_validity, set_rowid,
}

unfoldable pub all_zero : Bitmap → Bool
all_zero [] = true
all_zero (byte ∷ bytes) = byte == 0 && all_zero bytes

abbrev clear_valid : ℕ → ℕ → ℕ → Tables → Tables
clear_valid chunk_id chunk_offset byte t =
    put_chunk chunk_id
      (write_validity (chunk_offset / char_bit) (byte_off byte (chunk_offset % char_bit))
        (t.chunks chunk_id))
      t

module _ (p : Config) (faults : Faults) where
  unfoldable pub vec0_update_delete_clear_validity : ℕ → ℕ → Call (Unit {0})
  vec0_update_delete_clear_validity chunk_id chunk_offset = do
    chunk ← chunk_row p faults chunk_id sqlite_error
    blob_reach p faults (length chunk.validity) 1 (chunk_offset / char_bit) sqlite_code
    let byte = get_or chunk.validity (chunk_offset / char_bit) 0
    raise_if (byte / 2 ^ (chunk_offset % char_bit) == 0) sqlite_error
    try_call p faults sqlite_code
    modify (clear_valid chunk_id chunk_offset byte)
    try_call p faults sqlite_code

  unfoldable pub vec0_update_delete_clear_rowid : ℕ → ℕ → Call (Unit {0})
  vec0_update_delete_clear_rowid chunk_id chunk_offset = do
    chunk ← chunk_row p faults chunk_id sqlite_error
    blob_reach p faults (length chunk.rowids * 8) 8 (chunk_offset * 8) sqlite_code
    modify (λ t. put_chunk chunk_id (set_rowid chunk_offset 0 (t.chunks chunk_id)) t)
    try_call p faults sqlite_code

  unfoldable pub clear_vector : ℕ → ℕ → ℕ → Call (Unit {0})
  clear_vector chunk_id chunk_offset i = do
    blob ← vectors_row p faults i chunk_id sqlite_error
    sqlite3_malloc p faults (column_size p i) sqlite_nomem
    blob_reach p faults (length blob) (column_size p i) (chunk_offset * column_size p i) sqlite_code
    modify (
        put_vectors i chunk_id
          (some (copy_in (chunk_offset * column_size p i) (replicate (column_size p i) 0) blob)))
    try_call p faults sqlite_code

  unfoldable pub vec0_update_delete_clear_vectors : ℕ → ℕ → Call (Unit {0})
  vec0_update_delete_clear_vectors chunk_id chunk_offset =
      for_columns (clear_vector chunk_id chunk_offset) p.num_vector_columns 0

  -- `DELETE FROM ... WHERE rowid = ?`: the text, its preparation, the step.
  unfoldable pub delete_from : (Tables → Tables) → Call (Unit {0})
  delete_from f = do
    try_call p faults sqlite_nomem
    try_call p faults sqlite_code
    try_call p faults sqlite_error
    modify f

  -- Tells whether it deletes the chunk.
  unfoldable pub vec0_update_delete_delete_chunk_if_empty : ℕ → Call Bool
  vec0_update_delete_delete_chunk_if_empty chunk_id = do
    chunk ← chunk_row p faults chunk_id sqlite_error
    sqlite3_malloc p faults (length chunk.validity) sqlite_nomem
    try_call p faults sqlite_code
    try_call p faults sqlite_code
    if all_zero chunk.validity
        then delete_from (put_chunk chunk_id none)
          >> for_columns (λ i. delete_from (put_vectors i chunk_id none)) p.num_vector_columns 0
          >> return true
        else return false

  unfoldable pub vec0_update_delete_delete_rowids : ℕ → Call (Unit {0})
  vec0_update_delete_delete_rowids rowid = do
    try_call p faults sqlite_nomem
    try_call p faults sqlite_code
    try_call p faults sqlite_code
    modify (put_rowid rowid none)

  unfoldable pub vec0_update_delete : ℕ → Call (Unit {0})
  vec0_update_delete rowid = do
    position ← vec0_get_chunk_position p faults rowid
    vec0_update_delete_clear_validity position.0 position.1
    vec0_update_delete_clear_rowid position.0 position.1
    vec0_update_delete_clear_vectors position.0 position.1
    vec0_update_delete_delete_rowids rowid
    deleted ← vec0_update_delete_delete_chunk_if_empty position.0
    return tt
