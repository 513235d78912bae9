-- ===== src/Store/Steps.antt =====
-- The steps on single rows of the shadow tables that the statements share.
use agos_memory.Base.{
  ℕ, zero, suc, ◌+◌, ◌*◌, ◌/◌, max, Bool, true, false, List, Option, none, some, if◌then◌else◌,
  ◌==◌, ltb, set, replicate,
}
use agos_memory.Bitmap.{char_bit}
use agos_memory.Store.{
  vector_column_byte_size, Config, Chunk, Tables, Code, sqlite_error, sqlite_empty, sqlite_code,
  Call, ◌>>=◌, ◌>>◌, return, raise_if, from_row, look, modify, update, Faults, attempt,
}

abbrev pub column_size : Config → ℕ → ℕ
column_size p i = vector_column_byte_size (p.vector_columns i)

abbrev pub is_row : {A : Type 0} → Option A → Bool
is_row none = false
is_row (some row) = true

abbrev pub put_chunk : ℕ → Option Chunk → Tables → Tables
put_chunk chunk_id row t = record t { chunks = update t.chunks chunk_id row }

abbrev pub put_vectors : ℕ → ℕ → Option (List ℕ) → Tables → Tables
put_vectors i chunk_id row t = record t {
  vectors = update t.vectors i (update (t.vectors i) chunk_id row);
}

abbrev pub put_rowid : ℕ → Option (Option (ℕ × ℕ)) → Tables → Tables
put_rowid rowid row t = record t { rowids = update t.rowids rowid row }

-- One byte of the validity blob, and one number of the rowids, written.
abbrev pub write_validity : ℕ → ℕ → Option Chunk → Option Chunk
write_validity position byte none = none
write_validity position byte (some chunk) =
    some (record chunk { validity = set chunk.validity position byte })

abbrev pub set_rowid : ℕ → ℕ → Option Chunk → Option Chunk
set_rowid chunk_offset rowid none = none
set_rowid chunk_offset rowid (some chunk) =
    some (record chunk { rowids = set chunk.rowids chunk_offset rowid })

-- A NULL column reads as 0.
abbrev pub position_of : Option (ℕ × ℕ) → ℕ × ℕ
position_of none = (0, 0)
position_of (some place) = place

-- The largest key of `_chunks`, which are positive.
unfoldable pub max_rowid : (ℕ → Option Chunk) → ℕ → Option ℕ
max_rowid chunks zero = none
max_rowid chunks (suc k) = if is_row (chunks (suc k)) then some (suc k) else max_rowid chunks k

abbrev pub blank_chunk : Config → Chunk
blank_chunk p = record {
  validity = replicate (p.chunk_size / char_bit) 0;
  rowids = replicate p.chunk_size 0;
}

abbrev pub add_chunk : Config → ℕ → Tables → Tables
add_chunk p rowid t = record (put_chunk rowid (some (blank_chunk p)) t) { chunk_sequence = rowid }

abbrev pub add_rowid : ℕ → Tables → Tables
add_rowid rowid t = record (put_rowid rowid (some none) t) {
  rowid_sequence = max t.rowid_sequence rowid;
}

-- An UPDATE of a row that is not there changes nothing.
abbrev pub placed : Option (Option (ℕ × ℕ)) → ℕ × ℕ → Option (Option (ℕ × ℕ))
placed none place = none
placed (some row) place = some (some place)

abbrev place_row : ℕ → ℕ → ℕ → Tables → Tables
place_row rowid chunk_rowid chunk_offset t =
    put_rowid rowid (placed (t.rowids rowid) (chunk_rowid, chunk_offset)) t

-- `for (int i = 0; i < p->numVectorColumns; i++)`, with the rounds left.
unfoldable pub for_columns : (ℕ → Call (Unit {0})) → ℕ → ℕ → Call (Unit {0})
for_columns body zero i = return tt
for_columns body (suc left) i = do body i; for_columns body left (i + 1)

module _ (p : Config) (faults : Faults) where
  abbrev pub try_call : Code → Call (Unit {0})
  try_call = attempt faults

  -- `sqlite3_malloc`, which gives NULL for no bytes.
  abbrev pub sqlite3_malloc : ℕ → Code → Call (Unit {0})
  sqlite3_malloc n c = do raise_if (n == 0) c; try_call c

  -- `sqlite3_blob_open` fails where there is no such row.
  abbrev pub chunk_row : ℕ → Code → Call Chunk
  chunk_row chunk_id c = do try_call c; row ← look (λ t. t.chunks chunk_id); from_row c row

  abbrev pub vectors_row : ℕ → ℕ → Code → Call (List ℕ)
  vectors_row i chunk_id c = do try_call c; row ← look (λ t. t.vectors i chunk_id); from_row c row

  -- `sqlite3_blob_read` and `sqlite3_blob_write` fail past the end of the blob.
  abbrev pub blob_reach : ℕ → ℕ → ℕ → Code → Call (Unit {0})
  blob_reach size n offset c = do raise_if (ltb size (offset + n)) c; try_call c

  unfoldable pub vec0_get_chunk_position : ℕ → Call (ℕ × ℕ)
  vec0_get_chunk_position rowid = do
    try_call sqlite_code
    try_call sqlite_code
    row ← look (λ t. t.rowids rowid)
    position ← from_row sqlite_empty row
    return (position_of position)

  unfoldable pub vec0_rowids_insert_rowid : ℕ → Call (Unit {0})
  vec0_rowids_insert_rowid rowid = do
    try_call sqlite_code
    row ← look (λ t. t.rowids rowid)
    raise_if (is_row row) sqlite_error
    try_call sqlite_error
    modify (add_rowid rowid)

  -- With no id the key is the next of the sequence.
  unfoldable pub vec0_rowids_insert_id : Call ℕ
  vec0_rowids_insert_id = do
    try_call sqlite_code
    try_call sqlite_error
    rowid ← look (λ t. t.rowid_sequence + 1)
    modify (add_rowid rowid)
    return rowid

  unfoldable pub vec0_rowids_update_position : ℕ → ℕ → ℕ → Call (Unit {0})
  vec0_rowids_update_position rowid chunk_rowid chunk_offset = do
    try_call sqlite_code
    try_call sqlite_error
    modify (place_row rowid chunk_rowid chunk_offset)

  unfoldable pub vec0_get_latest_chunk_rowid : Call ℕ
  vec0_get_latest_chunk_rowid = do
    try_call sqlite_code
    try_call sqlite_error
    latest ← look (λ t. max_rowid t.chunks t.chunk_sequence)
    chunk_rowid ← from_row sqlite_empty latest
    try_call sqlite_code
    return chunk_rowid

  -- One vector row of a new chunk: all zeros.
  unfoldable pub new_vectors : ℕ → ℕ → Call (Unit {0})
  new_vectors rowid i = do
    try_call sqlite_code
    row ← look (λ t. t.vectors i rowid)
    raise_if (is_row row) sqlite_code
    try_call sqlite_code
    modify (put_vectors i rowid (some (replicate (p.chunk_size * column_size p i) 0)))

  unfoldable pub vec0_new_chunk : Call ℕ
  vec0_new_chunk = do
    try_call sqlite_code
    try_call sqlite_error
    rowid ← look (λ t. t.chunk_sequence + 1)
    modify (add_chunk p rowid)
    for_columns (new_vectors rowid) p.num_vector_columns 0
    return rowid
