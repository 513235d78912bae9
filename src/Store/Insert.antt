-- ===== src/Store/Insert.antt =====
-- `vec0Update_Insert` and its steps. The values of the vector columns are what `vector_from_value` read
-- (none: no vector). Closing a blob after an error changes nothing and is left out.
use agos_memory.Base.{
  ℕ, zero, suc, ◌+◌, ◌*◌, ◌/◌, ◌%◌, ◌^◌, bit_and, Bool, true, false, not, List, [], ◌∷◌, Option,
  none, some, if◌then◌else◌, ◌==◌, length, get_or, take,
}
use agos_memory.Bitmap.{Bitmap, char_bit, byte_on}
use agos_memory.Nodes.{copy_in}
use agos_memory.Store.{
  ElementType, float32, int8, bit, Config, Tables, sqlite_error, sqlite_nomem, sqlite_empty,
  sqlite_code, undefined, Result, ok, err, Call, ◌>>=◌, ◌>>◌, return, raise, raise_if, from_row,
  modify, Faults,
}
use agos_memory.Store.Steps.{
  try_call, sqlite3_malloc, chunk_row, vectors_row, blob_reach, column_size, put_chunk, put_vectors,
  for_columns, vec0_get_chunk_position, vec0_rowids_insert_rowid, vec0_rowids_insert_id,
  vec0_rowids_update_position, vec0_get_latest_chunk_rowid, vec0_new_chunk, write_validity,
  set_rowid,
}
use agos_memory.Store.Delete.{vec0_update_delete}

-- The place of the first bit off from place `j`, with the rounds left.
unfoldable pub free_in_byte : ℕ → ℕ → ℕ → Option ℕ
free_in_byte zero byte j = none
free_in_byte (suc left) byte j =
    let rest = free_in_byte left byte (j + 1) in
    if bit_and (byte / 2 ^ j) 1 == 0 then some j else rest

-- The first slot of the bitmap that is free; `i` bytes stand before these.
unfoldable pub next_free : Bitmap → ℕ → Option ℕ
unfolding free_in_byte
next_free [] i = none
next_free (byte ∷ bytes) i =
    let rest = next_free bytes (i + 1) in
    if byte == 255
    then rest
    else elim (free_in_byte char_bit byte 0) [ none ↦ rest | some j ↦ some (i * char_bit + j) ]

unfoldable pub same_type : ElementType → ElementType → Bool
same_type float32 float32 = true
same_type int8 int8 = true
same_type bit bit = true
same_type a b = false

-- A vector that `vector_from_value` read.
pub record VectorValue : Type 0 where
  pub element_type : ElementType
  pub dimensions : ℕ
  pub data_bytes : List ℕ

-- The value given for the primary key.
pub data IdValue : Type 0 where
  id_null : IdValue
  id_integer : ℕ → IdValue
  id_other : IdValue

-- What an INSERT gives: whether it is INSERT OR REPLACE, the key, the vectors, and whether the hidden
-- columns have values.
pub record Insertion : Type 0 where
  pub replace : Bool
  pub id : IdValue
  pub vectors : ℕ → Option VectorValue
  pub has_distance : Bool
  pub has_k : Bool

abbrev pub data_of : Option VectorValue → List ℕ
data_of none = []
data_of (some v) = v.data_bytes

-- The size and the offset of the vector of a slot.
unfoldable pub vector_write_size : ElementType → ℕ → ℕ
vector_write_size float32 dimensions = dimensions * 4
vector_write_size int8 dimensions = dimensions
vector_write_size bit dimensions = dimensions / char_bit

unfoldable pub vector_write_offset : ElementType → ℕ → ℕ → ℕ
vector_write_offset float32 dimensions chunk_offset = chunk_offset * dimensions * 4
vector_write_offset int8 dimensions chunk_offset = chunk_offset * dimensions
vector_write_offset bit dimensions chunk_offset = chunk_offset * dimensions / char_bit

-- A failure turned into SQLITE_ERROR.
abbrev pub as_error : {A : Type 0} → Result A × Tables × ℕ → Result A × Tables × ℕ
as_error (ok a, t, k) = (ok a, t, k)
as_error (err c, t, k) = (err sqlite_error, t, k)

-- Whether there is a row, for REPLACE; SQLITE_EMPTY is not an error.
unfoldable pub row_exists : Result (ℕ × ℕ) × Tables × ℕ → Result Bool × Tables × ℕ
row_exists (ok position, t, k) = (ok true, t, k)
row_exists (err sqlite_empty, t, k) = (ok false, t, k)
row_exists (err c, t, k) = (err c, t, k)

-- The byte of the buffer with the bit of the slot on is what is written.
abbrev mark_valid : ℕ → ℕ → Bitmap → Tables → Tables
mark_valid chunk_rowid chunk_offset buffer t =
    let byte = byte_on (get_or buffer (chunk_offset / char_bit) 0) (chunk_offset % char_bit) in
    put_chunk chunk_rowid (write_validity (chunk_offset / char_bit) byte (t.chunks chunk_rowid)) t

abbrev write_rowid : ℕ → ℕ → ℕ → Tables → Tables
write_rowid chunk_rowid chunk_offset rowid t =
    put_chunk chunk_rowid (set_rowid chunk_offset rowid (t.chunks chunk_rowid)) t

module _ (p : Config) (faults : Faults) where
  -- The state after: the chunk, the free slot, and the buffer with its validity bitmap.
  unfoldable pub open_validity : ℕ → Call Bitmap
  open_validity chunk_rowid = do
    chunk ← chunk_row p faults chunk_rowid sqlite_code
    raise_if (not (length chunk.validity == p.chunk_size / char_bit)) sqlite_error
    sqlite3_malloc p faults (length chunk.validity) sqlite_nomem
    try_call p faults sqlite_code
    return chunk.validity

  -- For a new chunk a wrong size leaves the buffer NULL and no error, and the allocation is not
  -- tested; both are undefined at the read that follows.
  unfoldable pub open_new_validity : ℕ → Call Bitmap
  open_new_validity chunk_rowid = do
    chunk ← chunk_row p faults chunk_rowid sqlite_code
    raise_if (not (length chunk.validity == p.chunk_size / char_bit)) undefined
    sqlite3_malloc p faults (length chunk.validity) undefined
    try_call p faults sqlite_code
    return chunk.validity

  -- Whether the blob of a full chunk is open, and has to be closed.
  abbrev pub close_stale : Bool → Call (Unit {0})
  close_stale true = try_call p faults sqlite_error
  close_stale false = return tt

  unfoldable pub use_new_chunk : Bool → Call (ℕ × ℕ × Bitmap)
  use_new_chunk stale = do
    chunk_rowid ← λ t k. as_error (vec0_new_chunk p faults t k)
    close_stale stale
    validity ← open_new_validity chunk_rowid
    return (chunk_rowid, 0, validity)

  abbrev pub use_free : ℕ → Bitmap → Option ℕ → Call (ℕ × ℕ × Bitmap)
  use_free chunk_rowid validity none = use_new_chunk true
  use_free chunk_rowid validity (some chunk_offset) = return (chunk_rowid, chunk_offset, validity)

  unfoldable pub use_latest : Result ℕ × Tables × ℕ → Result (ℕ × ℕ × Bitmap) × Tables × ℕ
  use_latest (ok chunk_rowid, t, k) =
      (open_validity chunk_rowid >>= λ validity.
      use_free chunk_rowid validity (next_free validity 0))
        t k
  use_latest (err sqlite_empty, t, k) = use_new_chunk false t k
  use_latest (err c, t, k) = (err c, t, k)

  unfoldable pub vec0_update_insert_next_available_step : Call (ℕ × ℕ × Bitmap)
  vec0_update_insert_next_available_step t k = use_latest (vec0_get_latest_chunk_rowid p faults t k)

  -- `vec0_write_vector_to_vector_blob` on the open blob of column `i`.
  unfoldable pub vec0_write_vector_to_vector_blob : ℕ → ℕ → ℕ → List ℕ → List ℕ → Call (Unit {0})
  vec0_write_vector_to_vector_blob i chunk_rowid chunk_offset bytes blob =
      let column = p.vector_columns i in
      let n = vector_write_size column.element_type column.dimensions in
      let offset = vector_write_offset column.element_type column.dimensions chunk_offset in
      blob_reach p faults (length blob) n offset sqlite_error
      >> modify (put_vectors i chunk_rowid (some (copy_in offset (take n bytes) blob)))

  unfoldable pub write_vector : (ℕ → List ℕ) → ℕ → ℕ → ℕ → Call (Unit {0})
  write_vector vector_datas chunk_rowid chunk_offset i = do
    blob ← vectors_row p faults i chunk_rowid sqlite_code
    raise_if (not (length blob == p.chunk_size * column_size p i)) sqlite_error
    vec0_write_vector_to_vector_blob i chunk_rowid chunk_offset (vector_datas i) blob
    try_call p faults sqlite_error

  unfoldable pub vec0_update_insert_rowid_step : IdValue → Call ℕ
  vec0_update_insert_rowid_step (id_integer rowid) = do
    vec0_rowids_insert_rowid p faults rowid
    return rowid
  vec0_update_insert_rowid_step id_null = vec0_rowids_insert_id p faults
  vec0_update_insert_rowid_step id_other = raise sqlite_error

  unfoldable pub mark_validity_bit : ℕ → ℕ → Bitmap → Call (Unit {0})
  mark_validity_bit chunk_rowid chunk_offset buffer = do
    blob_reach p faults (length buffer) 1 (chunk_offset / char_bit) sqlite_code
    modify (mark_valid chunk_rowid chunk_offset buffer)

  unfoldable pub write_chunk_rowid : ℕ → ℕ → ℕ → Call (Unit {0})
  write_chunk_rowid chunk_rowid chunk_offset rowid = do
    chunk ← chunk_row p faults chunk_rowid sqlite_code
    raise_if (not (length chunk.rowids * 8 == p.chunk_size * 8)) sqlite_error
    blob_reach p faults (length chunk.rowids * 8) 8 (chunk_offset * 8) sqlite_error
    modify (write_rowid chunk_rowid chunk_offset rowid)

  unfoldable pub vec0_update_insert_write_final_step :
      ℕ → ℕ → ℕ → (ℕ → List ℕ) → Bitmap → Call (Unit {0})
  vec0_update_insert_write_final_step chunk_rowid chunk_offset rowid vector_datas buffer = do
    mark_validity_bit chunk_rowid chunk_offset buffer
    for_columns (write_vector vector_datas chunk_rowid chunk_offset) p.num_vector_columns 0
    write_chunk_rowid chunk_rowid chunk_offset rowid
    vec0_rowids_update_position p faults rowid chunk_rowid chunk_offset
    try_call p faults sqlite_code

  -- The checks of one inserted vector.
  unfoldable pub check_vector : (ℕ → Option VectorValue) → ℕ → Call (Unit {0})
  unfolding same_type
  check_vector values i = do
    value ← from_row sqlite_error (values i)
    raise_if (not (same_type value.element_type (p.vector_columns i).element_type)) sqlite_error
    raise_if (not (value.dimensions == (p.vector_columns i).dimensions)) sqlite_error

  abbrev pub delete_if : ℕ → Bool → Call (Unit {0})
  delete_if rowid true = vec0_update_delete p faults rowid
  delete_if rowid false = return tt

  unfoldable pub replace_existing : Bool → IdValue → Call (Unit {0})
  replace_existing true (id_integer rowid) = do
    existing ← λ t k. row_exists (vec0_get_chunk_position p faults rowid t k)
    delete_if rowid existing
  replace_existing replace id = return tt

  unfoldable pub vec0_update_insert : Insertion → Call ℕ
  vec0_update_insert row = do
    for_columns (check_vector row.vectors) p.num_vector_columns 0
    raise_if row.has_distance sqlite_error
    raise_if row.has_k sqlite_error
    replace_existing row.replace row.id
    rowid ← vec0_update_insert_rowid_step row.id
    place ← vec0_update_insert_next_available_step
    vec0_update_insert_write_final_step place.0 place.1 rowid (λ i. data_of (row.vectors i)) place.2
    try_call p faults sqlite_code
    return rowid
