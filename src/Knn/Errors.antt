-- ===== src/Knn/Errors.antt =====
-- When the search returns an answer and when an error.
use mathlib.Core.Option.{none-ne-some}
use agos_memory.Base.{
  ℕ, ◌/◌, ◌≡◌, ◌↔◌, refl, inl, inr, Bool, true, false, List, [], ◌∷◌, Option, none, some, arith,
  Bool-cases, Option-cases, length, All,
}
use agos_memory.Bitmap.{Bitmap, bitmap_and_inplace, bitmap_copy, bitmap_clear}
use agos_memory.Ranking.{FloatOrder, Hit}
use agos_memory.Knn.{
  Chunk, Argument, metadata, distance, other, Query, is_metadata, any, blank, sizes_match,
  prefilter, nearest_of, step_chunk, chunks_loop, knn_chunks_iter, filter_metadata, filter_rowids,
}
use agos_memory.Knn.Search.{Answers, filter_metadata-Answers}

module _ {F R V M : Type 0} (filter : M → Chunk R V → Option Bitmap) (n : ℕ)
    (chunk : Chunk R V) where
  -- The loop over the filters ends only when each has answered.
  filter_metadata-some :
      (args : List (Argument F M)) (b b' : Bitmap)
      → filter_metadata filter n chunk args b ≡ some b'
      → Answers filter args chunk
  unfolding filter_metadata
  filter_metadata-some [] b b' h = tt
  filter_metadata-some (metadata m ∷ args) b b' h = elim (Option-cases (filter m chunk)) [
    | inl e ↦ absurd (none-ne-some b' (rw e at h))
    | inr (bm, e) ↦ ((bm, e), filter_metadata-some args (bitmap_and_inplace b bm n) b' (rw e at h))
  ]
  filter_metadata-some (distance op t ∷ args) b b' h = filter_metadata-some args b b' h
  filter_metadata-some (other ∷ args) b b' h = filter_metadata-some args b b' h

  no_metadata-Answers :
      (args : List (Argument F M)) → any is_metadata args ≡ false → Answers filter args chunk
  no_metadata-Answers [] h = tt
  no_metadata-Answers (metadata m ∷ args) h = cc
  no_metadata-Answers (distance op t ∷ args) h = no_metadata-Answers args h
  no_metadata-Answers (other ∷ args) h = no_metadata-Answers args h

module _ {F R V M : Type 0} ⦃o : FloatOrder F⦄ (q : Query F R V M) where
  -- Nothing is wrong with a row: each of its three blobs has the size that the table's chunks have,
  -- and every metadata filter of the query answers for it.
  pub record IsWhole (chunk : Chunk R V) : Type 0 where
    pub validity_size : length chunk.validity ≡ q.chunk_size / 8
    pub rowids_size : chunk.rowids.size ≡ q.chunk_size
    pub vectors_size : chunk.vectors.size ≡ q.chunk_size
    pub answers : Answers q.metadata_filter q.args chunk

  -- A row that could be stepped to, opened and read, with nothing wrong.
  abbrev pub IsSound : Option (Chunk R V) → Type 0
  IsSound none = ⊥
  IsSound (some chunk) = IsWhole chunk

  module _ (chunk : Chunk R V) where
    -- The bitmap that the metadata filters are met with.
    abbrev unfiltered : Bitmap
    unfiltered =
        filter_rowids q.bsearch q.chunk_size chunk q.rowids_in (blank q)
          (bitmap_copy (bitmap_clear (blank q) q.chunk_size) chunk.validity q.chunk_size)

    prefilter-some :
        (b : Bitmap) → prefilter q chunk ≡ some b → Answers q.metadata_filter q.args chunk
    unfolding prefilter
    prefilter-some b h = elim (Bool-cases (any is_metadata q.args)) [
      | inl on ↦
          filter_metadata-some q.metadata_filter q.chunk_size chunk q.args unfiltered b (rw on at h)
      | inr off ↦ no_metadata-Answers q.metadata_filter q.chunk_size chunk q.args off
    ]

    prefilter-Answers :
        Answers q.metadata_filter q.args chunk → (b : Bitmap) × (prefilter q chunk ≡ some b)
    unfolding prefilter
    prefilter-Answers h = elim (Bool-cases (any is_metadata q.args)) [
      | inl on ↦
          rw on (filter_metadata-Answers q.metadata_filter q.chunk_size q.args chunk unfiltered h)
      | inr off ↦ rw off (unfiltered, refl)
    ]

  step_chunk-some :
      (row : Option (Chunk R V)) (top top' : List (Hit F R))
      → step_chunk q top row ≡ some top'
      → IsSound row
  unfolding step_chunk
  step_chunk-some none top top' h = absurd (none-ne-some top' h)
  step_chunk-some (some chunk) top top' h = elim (Bool-cases (sizes_match q chunk)) [
    | inr misfit ↦ absurd (none-ne-some top' (rw misfit at h))
    | inl fit ↦ elim (Option-cases (prefilter q chunk)) [
      | inl e ↦ absurd (none-ne-some top' (rw (fit, e) at h))
      | inr (b, e) ↦ record {
        validity_size = ground arith;
        rowids_size = ground arith;
        vectors_size = ground arith;
        answers = prefilter-some chunk b e;
      }
    ]
  ]

  step_chunk-IsSound :
      (row : Option (Chunk R V)) (top : List (Hit F R))
      → IsSound row
      → (top' : List (Hit F R)) × (step_chunk q top row ≡ some top')
  unfolding step_chunk
  step_chunk-IsSound none top h = absurd h
  step_chunk-IsSound (some chunk) top w =
      let (b, e) = prefilter-Answers chunk w.answers in
      let sizes : sizes_match q chunk ≡ true =
        ground (arith, w.validity_size, w.rowids_size, w.vectors_size) in
      (nearest_of q chunk b top, rw (sizes, e))

  chunks_loop-some :
      (rows : List (Option (Chunk R V))) (top out : List (Hit F R))
      → chunks_loop q top rows ≡ some out
      → All IsSound rows
  unfolding chunks_loop
  chunks_loop-some [] top out h = tt
  chunks_loop-some (row ∷ rows) top out h = elim (Option-cases (step_chunk q top row)) [
    | inl e ↦ absurd (none-ne-some out (rw e at h))
    | inr (top', e) ↦ (step_chunk-some row top top' e, chunks_loop-some rows top' out (rw e at h))
  ]

  chunks_loop-IsSound :
      (rows : List (Option (Chunk R V))) (top : List (Hit F R))
      → All IsSound rows
      → (out : List (Hit F R)) × (chunks_loop q top rows ≡ some out)
  unfolding chunks_loop
  chunks_loop-IsSound [] top h = (top, refl)
  chunks_loop-IsSound (row ∷ rows) top h =
      let (top', e) = step_chunk-IsSound row top h.0 in
      let (out, e') = chunks_loop-IsSound rows top' h.1 in (out, rw e e')

  -- The search returns an answer exactly when the buffers can be had and, in every row, the chunk
  -- could be read, each of its three blobs has the size of the table's chunks, and every metadata
  -- filter of the query answers. Else it fails: there is no partial answer.
  pub knn_chunks_iter-IsSound :
      (allocated : Bool) (rows : List (Option (Chunk R V)))
      → ((out : List (Hit F R)) × (knn_chunks_iter q allocated rows ≡ some out))
        ↔ ((allocated ≡ true) × All IsSound rows)
  unfolding knn_chunks_iter
  knn_chunks_iter-IsSound true rows =
      (λ h. (refl, chunks_loop-some rows [] h.0 h.1), λ h. chunks_loop-IsSound rows [] h.1)
  knn_chunks_iter-IsSound false rows = (λ h. absurd (none-ne-some h.0 h.1), λ h. cc)
