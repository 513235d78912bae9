-- ===== src/Store/Invariant.antt =====
-- What holds of the shadow tables between two statements, and the abstract view: a finite map from
-- rowids to one vector for each column.
use agos_memory.Base.{
  ℕ, ◌*◌, ◌/◌, ◌%◌, ◌≤◌, ◌<◌, ◌≡◌, true, Option, none, some, List, length, get_or,
}
use agos_memory.Bitmap.{has}
use agos_memory.Bitmap.Access.{IsBytes}
use agos_memory.Nodes.{copy_out}
use agos_memory.Store.{bit, Config, Chunk, Tables}
use agos_memory.Store.Steps.{column_size}

-- A chunk has whole bytes of slots, and so has a vector of bits.
pub record IsConfig (p : Config) : Type 0 where
  pub whole_bytes : p.chunk_size % 8 ≡ 0
  pub some_slots : 0 < p.chunk_size
  pub some_bytes : (i : ℕ) → i < p.num_vector_columns → 0 < column_size p i
  pub whole_vectors :
      (i : ℕ)
      → i < p.num_vector_columns
      → (p.vector_columns i).element_type ≡ bit
      → (p.vector_columns i).dimensions % 8 ≡ 0

-- The blobs of a chunk have their sizes.
pub record IsSized (p : Config) (chunk : Chunk) : Type 0 where
  pub bytes : IsBytes chunk.validity
  pub validity_size : length chunk.validity ≡ p.chunk_size / 8
  pub rowids_size : length chunk.rowids ≡ p.chunk_size

-- The slot is in use and belongs to the row.
pub record Holds (p : Config) (t : Tables) (chunk_id chunk_offset rowid : ℕ) : Type 0 where
  pub chunk : Chunk
  pub at : t.chunks chunk_id ≡ some chunk
  pub within : chunk_offset < p.chunk_size
  pub valid : has chunk.validity chunk_offset ≡ true
  pub named : get_or chunk.rowids chunk_offset 0 ≡ rowid

-- Each column has a blob for the chunk.
abbrev pub Stored : Config → ℕ → Tables → Type 0
Stored p c t =
    (i : ℕ)
    → i < p.num_vector_columns
    → (blob : List ℕ) × (t.vectors i c ≡ some blob) × (length blob ≡ p.chunk_size * column_size p i)

-- The chunks have their sizes and their vectors, and there are no other vectors.
pub record IsShaped (p : Config) (t : Tables) : Type 0 where
  pub sized : (c : ℕ) (chunk : Chunk) → t.chunks c ≡ some chunk → IsSized p chunk
  pub stored : (c : ℕ) (chunk : Chunk) → t.chunks c ≡ some chunk → Stored p c t
  pub numbered :
      (c : ℕ) (chunk : Chunk) → t.chunks c ≡ some chunk → (0 < c) × (c ≤ t.chunk_sequence)
  pub stray : (c i : ℕ) → t.chunks c ≡ none → i < p.num_vector_columns → t.vectors i c ≡ none

-- Rows and slots in use correspond to each other.
pub record IsStore (p : Config) (t : Tables) : Type 0 where
  pub shape : IsShaped p t
  pub slot_of : (rowid c o : ℕ) → t.rowids rowid ≡ some (some (c, o)) → Holds p t c o rowid
  pub row_of :
      (c o : ℕ) (chunk : Chunk)
      → t.chunks c ≡ some chunk
      → o < p.chunk_size
      → has chunk.validity o ≡ true
      → t.rowids (get_or chunk.rowids o 0) ≡ some (some (c, o))
  pub counted :
      (rowid : ℕ) (place : Option (ℕ × ℕ)) → t.rowids rowid ≡ some place → rowid ≤ t.rowid_sequence

abbrev pub slice : ℕ → ℕ → Option (List ℕ) → Option (List ℕ)
slice size o none = none
slice size o (some blob) = some (copy_out (o * size) size blob)

abbrev pub stored_at : Config → Tables → ℕ → Option (Option (ℕ × ℕ)) → Option (List ℕ)
stored_at p t i none = none
stored_at p t i (some none) = none
stored_at p t i (some (some (c, o))) = slice (column_size p i) o (t.vectors i c)

-- The vector that a row has in a column.
unfoldable pub find : Config → Tables → ℕ → ℕ → Option (List ℕ)
find p t i rowid = stored_at p t i (t.rowids rowid)
