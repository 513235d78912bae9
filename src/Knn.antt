-- ===== src/Knn.antt =====
-- `vec0Filter_knn_chunks_iter` of crates/sqlite-vec-src/src/sqlite-vec.c: the exact nearest
-- neighbour search, which walks the chunks of a table and keeps the k nearest rows so far.
-- The vectors' distance to the query, `bsearch` of the C library and the metadata filter are
-- parameters. The value none stands for every error code; buffers are values.
pub mod Filter
pub mod Candidates
pub mod Top
pub mod Search
pub mod Errors
use agos_memory.Base.{
  ℕ, zero, suc, ◌+◌, ◌/◌, Bool, true, false, not, ◌&&◌, ◌||◌, List, [], ◌∷◌, Option, none, some,
  if◌then◌else◌, ◌==◌, length, take, replicate, min,
}
use agos_memory.Bitmap.{
  Bitmap, char_bit, bitmap_copy, bitmap_clear, bitmap_get, bitmap_set, bitmap_and_inplace,
  for_slots, has,
}
use agos_memory.Ranking.{FloatOrder, Hit, float_lt, float_gt, float_ge}
use agos_memory.Merge.{merge_sorted_lists}
use agos_memory.MinIdx.{min_idx}

-- A blob that is read as an array: how many elements it has, and its elements.
pub record Blob (A : Type 0) : Type 0 where
  pub size : ℕ
  pub at : ℕ → A

-- One row of the chunks table with its vectors. Its `chunk_id`, which the code passes to the metadata
-- filters so that they find their rows, is part of what `metadata_filter` is given as the chunk.
pub record Chunk (R V : Type 0) : Type 0 where
  pub validity : Bitmap
  pub rowids : Blob R
  pub vectors : Blob V

pub data DistanceOp : Type 0 where
  gt ge lt le : DistanceOp

-- The arguments of the query, by the kind that `idxStr` gives each.
pub data Argument (F M : Type 0) : Type 0 where
  metadata : M → Argument F M
  distance : DistanceOp → F → Argument F M
  other : Argument F M

abbrev pub is_metadata : {F M : Type 0} → Argument F M → Bool
is_metadata (metadata m) = true
is_metadata (distance op t) = false
is_metadata other = false

abbrev pub is_distance : {F M : Type 0} → Argument F M → Bool
is_distance (metadata m) = false
is_distance (distance op t) = true
is_distance other = false

-- The flags `hasMetadataFilters` and `hasDistanceConstraints`.
abbrev pub any : {A : Type 0} → (A → Bool) → List A → Bool
any p [] = false
any p (x ∷ xs) = p x || any p xs

-- `chunk_distances[i] op target`
abbrev pub within : {F : Type 0} ⦃o : FloatOrder F⦄ → DistanceOp → F → F → Bool
within gt d target = float_gt d target
within ge d target = float_ge d target
within lt d target = float_lt d target
within ⦃o⦄ le d target = o.le d target

infixl 5 ◌>>=◌
abbrev pub ◌>>=◌ {ℓ κ} : {A : Type ℓ} {B : Type κ} → Option A → (A → Option B) → Option B
none >>= f = none
some a >>= f = f a

-- The body of the loop that fills `bmRowids`.
unfoldable pub rowid_round :
    {R V : Type 0} → (R → List R → Bool) → Chunk R V → List R → ℕ → Bitmap → Bitmap
rowid_round bsearch chunk ids i bm =
    if has chunk.validity i
    then bitmap_set bm i (if bsearch (chunk.rowids.at i) ids then 1 else 0)
    else bm

-- `rowid IN (...)`: no argument leaves the bitmap alone. `bm` is the buffer `bmRowids`.
unfoldable pub filter_rowids :
    {R V : Type 0}
    → (R → List R → Bool)
    → ℕ
    → Chunk R V
    → Option (List R)
    → Bitmap
    → Bitmap
    → Bitmap
filter_rowids bsearch n chunk none bm b = b
filter_rowids bsearch n chunk (some ids) bm b =
    bitmap_and_inplace b (for_slots (rowid_round bsearch chunk ids) n 0 (bitmap_clear bm n)) n

module _ {F R V M : Type 0} (metadata_filter : M → Chunk R V → Option Bitmap) where
  -- The loop over the arguments that meets the bitmap with each metadata filter's.
  unfoldable pub filter_metadata : ℕ → Chunk R V → List (Argument F M) → Bitmap → Option Bitmap
  filter_metadata n chunk [] b = some b
  filter_metadata n chunk (metadata m ∷ args) b = do
    bm ← metadata_filter m chunk
    filter_metadata n chunk args (bitmap_and_inplace b bm n)
  filter_metadata n chunk (distance op t ∷ args) b = filter_metadata n chunk args b
  filter_metadata n chunk (other ∷ args) b = filter_metadata n chunk args b

module _ {F : Type 0} ⦃o : FloatOrder F⦄ (distances : ℕ → F) where
  -- The body of the loop of one distance constraint.
  unfoldable pub distance_round : DistanceOp → F → ℕ → Bitmap → Bitmap
  distance_round op target i b =
      if has b i && not (within op (distances i) target) then bitmap_set b i 0 else b

  unfoldable pub filter_distance : {M : Type 0} → ℕ → List (Argument F M) → Bitmap → Bitmap
  filter_distance n [] b = b
  filter_distance n (metadata m ∷ args) b = filter_distance n args b
  filter_distance n (distance op target ∷ args) b =
      filter_distance n args (for_slots (distance_round op target) n 0 b)
  filter_distance n (other ∷ args) b = filter_distance n args b

-- What the query brings, and the functions that the loop calls.
pub record Query (F R V M : Type 0) : Type 0 where
  pub chunk_size : ℕ
  pub k : ℕ
  pub args : List (Argument F M)
  pub rowids_in : Option (List R)
  pub distance_to : V → F
  pub zero_distance : F
  pub bsearch : R → List R → Bool
  pub metadata_filter : M → Chunk R V → Option Bitmap

module _ {F R V M : Type 0} ⦃o : FloatOrder F⦄ (q : Query F R V M) where
  abbrev pub blank : Bitmap
  blank = replicate (q.chunk_size / char_bit) 0

  -- `chunk_distances`: cleared first, then filled where the bitmap has the slot.
  abbrev pub distances : Chunk R V → Bitmap → ℕ → F
  distances chunk b i = if has b i then q.distance_to (chunk.vectors.at i) else q.zero_distance

  -- The three size checks of a chunk.
  abbrev pub sizes_match : Chunk R V → Bool
  sizes_match chunk =
      length chunk.validity == q.chunk_size / char_bit
      && chunk.rowids.size == q.chunk_size
      && chunk.vectors.size == q.chunk_size

  -- The bitmap before distances are known.
  unfoldable pub prefilter : Chunk R V → Option Bitmap
  prefilter chunk =
      let b = bitmap_copy (bitmap_clear blank q.chunk_size) chunk.validity q.chunk_size in
      let b1 = filter_rowids q.bsearch q.chunk_size chunk q.rowids_in blank b in
      if any is_metadata q.args
      then filter_metadata q.metadata_filter q.chunk_size chunk q.args b1
      else some b1

  -- The rest of the loop's body: the distances, their constraints, the nearest of the chunk, the
  -- merge with the hits so far.
  unfoldable pub nearest_of : Chunk R V → Bitmap → List (Hit F R) → List (Hit F R)
  nearest_of chunk b top =
      let d = distances chunk b in
      let b1 = if any is_distance q.args then filter_distance d q.chunk_size q.args b else b in
      let idxs = min_idx d q.chunk_size b1 (min q.k q.chunk_size) blank in
      merge_sorted_lists d chunk.rowids.at q.k top
        (take (min (min q.k q.chunk_size) (length idxs)) idxs)

  -- One row of the statement, where none is a step, an open or a read that fails.
  unfoldable pub step_chunk : List (Hit F R) → Option (Chunk R V) → Option (List (Hit F R))
  step_chunk top none = none
  step_chunk top (some chunk) =
      if sizes_match chunk then (do b ← prefilter chunk; some (nearest_of chunk b top)) else none

  unfoldable pub chunks_loop : List (Hit F R) → List (Option (Chunk R V)) → Option (List (Hit F R))
  chunks_loop top [] = some top
  chunks_loop top (row ∷ rows) = do top' ← step_chunk top row; chunks_loop top' rows

  -- `allocated` says whether the buffers could be had.
  unfoldable pub knn_chunks_iter : Bool → List (Option (Chunk R V)) → Option (List (Hit F R))
  knn_chunks_iter allocated rows = if allocated then chunks_loop [] rows else none
