-- ===== src/Knn/Search.antt =====
-- The whole search: what it returns when every chunk can be read.
use mathlib.Core.List.{append_assoc, append-nil}
use agos_memory.Base.{
  ℕ, ◌/◌, ◌%◌, ◌≡◌, refl, sym, ◌∙◌, inl, inr, true, List, [], ◌∷◌, ◌++◌, Option, none, some, arith,
  Bool-cases, length, subst, All,
}
use agos_memory.Bitmap.{Bitmap, bitmap_and_inplace}
use agos_memory.Bitmap.Access.{IsBytes}
use agos_memory.Ranking.{FloatOrder, Hit, IsTop}
use agos_memory.Ranking.Laws.{IsTop-nothing}
use agos_memory.Knn.{
  Chunk, Argument, metadata, distance, other, Query, is_metadata, any, sizes_match, prefilter,
  nearest_of, step_chunk, chunks_loop, knn_chunks_iter, filter_metadata,
}
use agos_memory.Knn.Candidates.{candidates, all_candidates}
use agos_memory.Knn.Top.{by_rowid, prefilter-Keeps, prefilter_lem, nearest_of-IsTop}

-- Every metadata filter gives a bitmap for the chunk.
abbrev pub Answers :
    {F R V M : Type 0} → (M → Chunk R V → Option Bitmap) → List (Argument F M) → Chunk R V → Type 0
Answers filter [] chunk = Unit
Answers filter (metadata m ∷ args) chunk =
    ((bm : Bitmap) × (filter m chunk ≡ some bm)) × Answers filter args chunk
Answers filter (distance op t ∷ args) chunk = Answers filter args chunk
Answers filter (other ∷ args) chunk = Answers filter args chunk

pub filter_metadata-Answers :
    {F R V M : Type 0} (filter : M → Chunk R V → Option Bitmap) (n : ℕ) (args : List (Argument F M))
    (chunk : Chunk R V) (b : Bitmap)
    → Answers filter args chunk
    → (b' : Bitmap) × (filter_metadata filter n chunk args b ≡ some b')
unfolding filter_metadata
filter_metadata-Answers filter n [] chunk b h = (b, refl)
filter_metadata-Answers filter n (metadata m ∷ args) chunk b ((bm, e), h) =
    rw e (filter_metadata-Answers filter n args chunk (bitmap_and_inplace b bm n) h)
filter_metadata-Answers filter n (distance op t ∷ args) chunk b h =
    filter_metadata-Answers filter n args chunk b h
filter_metadata-Answers filter n (other ∷ args) chunk b h =
    filter_metadata-Answers filter n args chunk b h

module _ {F R V M : Type 0} ⦃o : FloatOrder F⦄ (q : Query F R V M) where
  -- A row whose chunk can be searched: it was read, its blobs have the sizes of the table, and the
  -- metadata filters answer.
  pub record IsSearchable (chunk : Chunk R V) : Type 0 where
    pub bytes : IsBytes chunk.validity
    pub validity_size : length chunk.validity ≡ q.chunk_size / 8
    pub rowids_size : chunk.rowids.size ≡ q.chunk_size
    pub vectors_size : chunk.vectors.size ≡ q.chunk_size
    pub answers : Answers q.metadata_filter q.args chunk

  abbrev pub IsRead : Option (Chunk R V) → Type 0
  IsRead none = ⊥
  IsRead (some chunk) = IsSearchable chunk

  module _ (e8 : q.chunk_size % 8 ≡ 0) where
    prefilter-IsSearchable :
        (chunk : Chunk R V) → IsSearchable chunk → (b : Bitmap) × (prefilter q chunk ≡ some b)
    prefilter-IsSearchable chunk s =
        let shape = prefilter_lem q e8 chunk s.validity_size in
        elim (Bool-cases (any is_metadata q.args)) [
          | inl on ↦
              let (b, e) =
                filter_metadata-Answers q.metadata_filter q.chunk_size q.args chunk
                  (by_rowid q e8 chunk s.validity_size) s.answers in
              (b, shape ∙ rw on e)
          | inr off ↦ (by_rowid q e8 chunk s.validity_size, shape ∙ rw off)
        ]

    step_chunk-IsTop :
        (chunk : Chunk R V) (seen top : List (Hit F R))
        → IsSearchable chunk
        → IsTop (λ h. h.distance) q.k seen top
        → (top' : List (Hit F R)) × (step_chunk q top (some chunk) ≡ some top')
          × IsTop (λ h. h.distance) q.k (seen ++ candidates q chunk) top'
    unfolding step_chunk
    step_chunk-IsTop chunk seen top s t =
        let (b, e) = prefilter-IsSearchable chunk s in
        let sizes : sizes_match q chunk ≡ true =
          ground (arith, s.validity_size, s.rowids_size, s.vectors_size) in
        (
          nearest_of q chunk b top,
          rw (sizes, e),
          nearest_of-IsTop q e8 chunk s.validity_size b
              (prefilter-Keeps q e8 chunk s.validity_size b s.bytes e) seen top t,
        )

    chunks_loop-IsTop :
        (rows : List (Option (Chunk R V))) (seen top : List (Hit F R))
        → All IsRead rows
        → IsTop (λ h. h.distance) q.k seen top
        → (out : List (Hit F R)) × (chunks_loop q top rows ≡ some out)
          × IsTop (λ h. h.distance) q.k (seen ++ all_candidates q rows) out
    unfolding chunks_loop
    chunks_loop-IsTop [] seen top h t =
        (top, refl, subst (λ l. IsTop (λ h. h.distance) q.k l top) (sym (append-nil seen)) t)
    chunks_loop-IsTop (none ∷ rows) seen top h t = absurd h.0
    chunks_loop-IsTop (some chunk ∷ rows) seen top h t =
        let (top', e, t') = step_chunk-IsTop chunk seen top h.0 t in
        let (out, e', t'') = chunks_loop-IsTop rows (seen ++ candidates q chunk) top' h.1 t' in
        (
          out,
          rw e e',
          subst (λ l. IsTop (λ h. h.distance) q.k l out)
              (append_assoc seen (candidates q chunk) (all_candidates q rows)) t'',
        )

    -- If the buffers can be had and every chunk can be read and has the table's sizes, the search
    -- returns, and what it returns are the k nearest of the rows selected in any chunk.
    pub knn_chunks_iter-IsTop :
        (rows : List (Option (Chunk R V)))
        → All IsRead rows
        → (out : List (Hit F R)) × (knn_chunks_iter q true rows ≡ some out)
          × IsTop (λ h. h.distance) q.k (all_candidates q rows) out
    unfolding knn_chunks_iter
    knn_chunks_iter-IsTop rows h = chunks_loop-IsTop rows [] [] h (IsTop-nothing _ q.k [] refl)
