-- ===== src/Store.antt =====
-- The shadow tables of a `vec0` table, crates/sqlite-vec-src/src/sqlite-vec.c: the state, the calls of
-- SQLite on it, and (in the children) insertion, deletion and update of rows. The table is one like
-- `vec_memories`: integer primary key, flat vector columns, no partition key or auxiliary columns;
-- metadata columns are left out. Rowids are not negative.
pub mod Steps
pub mod Insert
pub mod Delete
pub mod Outcome
pub mod Maps
pub mod Rules
pub mod Vectors
pub mod Invariant
pub mod Shape
pub mod Erase
pub mod Remove
pub mod RemoveLaws
pub mod Reclaim
pub mod Free
pub mod Grow
pub mod Ready
pub mod Fill
pub mod Place
pub mod PlaceLaws
pub mod Keys
pub mod Adds
pub mod Read
pub mod Refusals
pub mod History
pub mod Deletes
pub mod Inserted
pub mod Reached
pub mod Update
pub mod UpdateLaws
pub mod Updates
pub mod Changed
use agos_memory.Base.{
  ℕ, ◌+◌, ◌*◌, ◌/◌, Bool, true, false, List, Option, none, some, if◌then◌else◌, ◌==◌,
}
use agos_memory.Bitmap.{Bitmap, char_bit}

pub data ElementType : Type 0 where
  float32 : ElementType
  int8 : ElementType
  bit : ElementType

-- What a vector column is declared as.
pub record VectorColumn : Type 0 where
  pub element_type : ElementType
  pub dimensions : ℕ

unfoldable pub vector_byte_size : ElementType → ℕ → ℕ
vector_byte_size float32 dimensions = dimensions * 4
vector_byte_size int8 dimensions = dimensions
vector_byte_size bit dimensions = dimensions / char_bit

unfoldable pub vector_column_byte_size : VectorColumn → ℕ
vector_column_byte_size column = vector_byte_size column.element_type column.dimensions

pub record Config : Type 0 where
  pub chunk_size : ℕ
  pub num_vector_columns : ℕ
  pub vector_columns : ℕ → VectorColumn

-- A row of `_chunks`. The blob of rowids is the list of its eight-byte numbers.
pub record Chunk : Type 0 where
  pub validity : Bitmap
  pub rowids : List ℕ

-- The tables: `_chunks`, `_rowids` with the position of each row (none: NULL), and one
-- `_vector_chunksNN` for each vector column. An AUTOINCREMENT table keeps the largest key it has had.
pub record Tables : Type 0 where
  pub chunks : ℕ → Option Chunk
  pub chunk_sequence : ℕ
  pub rowids : ℕ → Option (Option (ℕ × ℕ))
  pub rowid_sequence : ℕ
  pub vectors : ℕ → ℕ → Option (List ℕ)

-- SQLITE_ERROR, SQLITE_NOMEM, SQLITE_EMPTY, a code that SQLite gave, and behaviour that C leaves
-- undefined.
pub data Code : Type 0 where
  sqlite_error : Code
  sqlite_nomem : Code
  sqlite_empty : Code
  sqlite_code : Code
  undefined : Code

pub data Result (A : Type 0) : Type 0 where
  ok : A → Result A
  err : Code → Result A

-- A call works on the tables and a clock that counts what can fail. One that fails keeps what has been
-- written: taking it back is SQLite's part.
abbrev pub Call : Type 0 → Type 0
Call A = Tables → ℕ → Result A × Tables × ℕ

abbrev pub resume : {A B : Type 0} → (A → Call B) → Result A × Tables × ℕ → Result B × Tables × ℕ
resume f (ok a, t, k) = f a t k
resume f (err c, t, k) = (err c, t, k)

infixl 5 ◌>>=◌ ◌>>◌
abbrev pub ◌>>=◌ : {A B : Type 0} → Call A → (A → Call B) → Call B
◌>>=◌ m f t k = resume f (m t k)

abbrev pub ◌>>◌ : {A B : Type 0} → Call A → Call B → Call B
m >> n = m >>= λ _. n

abbrev pub return : {A : Type 0} → A → Call A
return a t k = (ok a, t, k)

abbrev pub raise : {A : Type 0} → Code → Call A
raise c t k = (err c, t, k)

abbrev pub raise_if : Bool → Code → Call (Unit {0})
raise_if b c t k = if b then (err c, t, k) else (ok tt, t, k)

abbrev pub from_row : {A : Type 0} → Code → Option A → Call A
from_row c none = raise c
from_row c (some a) = return a

abbrev pub look : {A : Type 0} → (Tables → A) → Call A
look f t k = (ok (f t), t, k)

abbrev pub modify : (Tables → Tables) → Call (Unit {0})
modify f t k = (ok tt, f t, k)

-- What replaces a row of a table, or takes it out.
abbrev pub update : {A : Type 0} → (ℕ → A) → ℕ → A → ℕ → A
update rows k row j = if j == k then row else rows j

-- Which calls of SQLite or of its allocator fail, by the clock.
abbrev pub Faults : Type 0
Faults = ℕ → Bool

-- One call that can fail, with the code that the caller goes on with.
abbrev pub attempt : Faults → Code → Call (Unit {0})
attempt faults c t k = if faults k then (err c, t, k + 1) else (ok tt, t, k + 1)
