-- ===== src/Knn/Top.antt =====
-- The search returns the k nearest rows among all chunks.
use mathlib.Core.Option.{some-injective}
use agos_memory.Base.{
  ℕ, zero, suc, ◌/◌, ◌%◌, ◌≤◌, ◌<◌, ◌≡◌, refl, sym, ap, ◌∙◌, inl, inr, Bool, true, false, ◌&&◌,
  List, [], ◌∷◌, ◌++◌, some, map, arith, &&_parts, if◌then◌else◌, Bool-cases, length,
  length-replicate, take-all, replicate, min, subst,
}
use agos_memory.Bitmap.{Bitmap, bitmap_clear, bitmap_copy, has}
use agos_memory.Bitmap.Access.{IsBytes, length-bitmap_clear}
use agos_memory.Bitmap.Loop.{Fits, memcpy-all}
use agos_memory.Ranking.{FloatOrder, Hit, IsTop}
use agos_memory.Ranking.Laws.{IsTop-map, IsTop-min}
use agos_memory.Merge.{hit_at, merge_sorted_lists}
use agos_memory.Merge.Top.{merge_sorted_lists-IsTop}
use agos_memory.MinIdx.{min_idx}
use agos_memory.MinIdx.Positions.{positions, positions-ext}
use agos_memory.MinIdx.Top.{min_idx-IsTop}
use agos_memory.Knn.{
  Chunk, Argument, metadata, distance, other, is_metadata, is_distance, any, Query, blank,
  distances, prefilter, nearest_of, filter_metadata, filter_rowids, filter_distance,
}
use agos_memory.Knn.Filter.{
  Keeps, rowid_ok, metadata_ok, distance_ok, filter_rowids-Keeps, filter_metadata-Keeps,
  filter_distance-Keeps,
}
use agos_memory.Knn.Candidates.{
  distance_at, selected, row_at, candidates, length-positions, map-positions,
}

Keeps-then :
    {n : ℕ} {p r : ℕ → Bool} (a b c : Bitmap)
    → Keeps n p a b
    → Keeps n r b c
    → Keeps n (λ j. p j && r j) a c
Keeps-then a b c h k = record {
  fits = k.fits;
  slots = λ j l. ground (arith, h.slots j l, k.slots j l);
}

all_on :
    (x y v r m z z' : Bool)
    → x ≡ (y && z)
    → z ≡ z'
    → y ≡ (v && (r && m))
    → y ≡ true
    → x ≡ (v && r && m && z')
all_on x y v r m z z' h e k on = ground arith

all_off :
    (x y v r m z z' : Bool)
    → x ≡ (y && z)
    → y ≡ (v && (r && m))
    → y ≡ false
    → x ≡ (v && r && m && z')
all_off x y v r m z z' h k off = ground arith

replicate-IsBytes : (n : ℕ) → IsBytes (replicate n 0)
replicate-IsBytes zero = tt
replicate-IsBytes (suc n) = (omega arith, replicate-IsBytes n)

module _ {F R V M : Type 0} ⦃o : FloatOrder F⦄ (q : Query F R V M) (e8 : q.chunk_size % 8 ≡ 0) where
  blank-Fits : Fits q.chunk_size (blank q)
  blank-Fits = record {
    bytes = replicate-IsBytes (q.chunk_size / 8);
    room = omega (arith, length-replicate {A = ℕ} (q.chunk_size / 8) 0);
  }

  metadata_ok-none :
      (args : List (Argument F M)) (chunk : Chunk R V) (j : ℕ)
      → any is_metadata args ≡ false
      → metadata_ok q.metadata_filter args chunk j ≡ true
  metadata_ok-none [] chunk j h = refl
  metadata_ok-none (metadata m ∷ args) chunk j h = cc
  metadata_ok-none (distance op t ∷ args) chunk j h = metadata_ok-none args chunk j h
  metadata_ok-none (other ∷ args) chunk j h = metadata_ok-none args chunk j h

  distance_ok-none :
      (args : List (Argument F M)) (x : F)
      → any is_distance args ≡ false
      → distance_ok args x ≡ true
  distance_ok-none [] x h = refl
  distance_ok-none (metadata m ∷ args) x h = distance_ok-none args x h
  distance_ok-none (distance op t ∷ args) x h = cc
  distance_ok-none (other ∷ args) x h = distance_ok-none args x h

  -- The slots before distances are known.
  abbrev pub asked : Chunk R V → ℕ → Bool
  asked chunk j =
      rowid_ok q.bsearch chunk q.rowids_in j && metadata_ok q.metadata_filter q.args chunk j

  module _ (chunk : Chunk R V) (size : length chunk.validity ≡ q.chunk_size / 8) where
    -- What the rowid filter makes of the chunk's validity bitmap.
    abbrev pub by_rowid : Bitmap
    by_rowid = filter_rowids q.bsearch q.chunk_size chunk q.rowids_in (blank q) chunk.validity

    copied :
        bitmap_copy (bitmap_clear (blank q) q.chunk_size) chunk.validity q.chunk_size
        ≡ chunk.validity
    unfolding bitmap_copy
    copied =
        memcpy-all _ _ (q.chunk_size / 8)
          (omega (
            arith,
            length-bitmap_clear (blank q) q.chunk_size,
            length-replicate {A = ℕ} (q.chunk_size / 8) 0,
          ))
          size

    pub prefilter_lem : prefilter q chunk ≡ (
        if any is_metadata q.args
        then filter_metadata q.metadata_filter q.chunk_size chunk q.args by_rowid
        else some by_rowid)
    unfolding prefilter
    prefilter_lem = rw copied

    whole : IsBytes chunk.validity → Fits q.chunk_size chunk.validity
    whole bytes = record { bytes = bytes; room = omega arith }

    by_rowid-Keeps :
        IsBytes chunk.validity
        → Keeps q.chunk_size (rowid_ok q.bsearch chunk q.rowids_in) chunk.validity by_rowid
    by_rowid-Keeps bytes =
        filter_rowids-Keeps q.bsearch q.chunk_size chunk q.rowids_in (blank q) chunk.validity e8
          blank-Fits (whole bytes) (λ j l. refl)

    pub prefilter-Keeps :
        (b : Bitmap)
        → IsBytes chunk.validity
        → prefilter q chunk ≡ some b
        → Keeps q.chunk_size (asked chunk) chunk.validity b
    prefilter-Keeps b bytes h = elim (Bool-cases (any is_metadata q.args)) [
      | inl on ↦ Keeps-then _ _ _ (by_rowid-Keeps bytes) (
          filter_metadata-Keeps q.metadata_filter q.chunk_size q.args chunk by_rowid b e8
            (by_rowid-Keeps bytes).fits (rw on at (sym prefilter_lem ∙ h)))
      | inr off ↦
          let same : some by_rowid ≡ some b = rw off at (sym prefilter_lem ∙ h) in
          subst (Keeps q.chunk_size (asked chunk) chunk.validity) (some-injective by_rowid b same) (
            Keeps-then _ _ _ (by_rowid-Keeps bytes) (record {
              fits = (by_rowid-Keeps bytes).fits;
              slots = λ j l. ground (arith, metadata_ok-none q.args chunk j off);
            }))
    ]

    module _ (b : Bitmap) (kept : Keeps q.chunk_size (asked chunk) chunk.validity b) where
      abbrev d : ℕ → F
      d = distances q chunk b

      abbrev by_distance : Bitmap
      by_distance = if any is_distance q.args then filter_distance d q.chunk_size q.args b else b

      by_distance-Keeps : Keeps q.chunk_size (λ j. distance_ok q.args (d j)) b by_distance
      by_distance-Keeps = elim (Bool-cases (any is_distance q.args)) [
        | inl on ↦ rw on (filter_distance-Keeps d q.chunk_size q.args b kept.fits)
        | inr off ↦ rw off (record {
          fits = kept.fits;
          slots = λ j l. ground (arith, distance_ok-none q.args (d j) off);
        })
      ]

      measured : (j : ℕ) → has b j ≡ true → d j ≡ distance_at q chunk j
      measured j on = rw on

      -- The slots left are the selected ones.
      by_distance-selected : (j : ℕ) → j < q.chunk_size → has by_distance j ≡ selected q chunk j
      by_distance-selected j l = elim (Bool-cases (has b j)) [
        | inl on ↦
            all_on _ _ (has chunk.validity j) (rowid_ok q.bsearch chunk q.rowids_in j)
              (metadata_ok q.metadata_filter q.args chunk j) _ _ (by_distance-Keeps.slots j l)
              (ap (distance_ok q.args) (measured j on)) (kept.slots j l) on
        | inr off ↦
            all_off _ _ (has chunk.validity j) (rowid_ok q.bsearch chunk q.rowids_in j)
              (metadata_ok q.metadata_filter q.args chunk j) _
              (distance_ok q.args (distance_at q chunk j)) (by_distance-Keeps.slots j l)
              (kept.slots j l) off
      ]

      -- The places that `min_idx` returns, as they are passed on.
      abbrev idxs : List ℕ
      idxs = min_idx d q.chunk_size by_distance (min q.k q.chunk_size) (blank q)

      idxs-IsTop : IsTop d q.k (positions q.chunk_size (has by_distance)) idxs
      idxs-IsTop =
          IsTop-min d q.k q.chunk_size _ _ (length-positions q.chunk_size (has by_distance)) (
            min_idx-IsTop d q.chunk_size by_distance (min q.k q.chunk_size) (blank q)
              blank-Fits.bytes e8 blank-Fits.room)

      length-idxs : length idxs ≤ min (min q.k q.chunk_size) (length idxs)
      length-idxs = omega (arith, idxs-IsTop.full, length-positions q.chunk_size (has by_distance))

      was_on : (j : ℕ) → j < q.chunk_size → has by_distance j ≡ true → has b j ≡ true
      was_on j l on = (&&_parts _ _ (sym (by_distance-Keeps.slots j l) ∙ on)).0

      -- The hits of the chunk are its candidates.
      hits-candidates :
          map (hit_at d chunk.rowids.at) (positions q.chunk_size (has by_distance))
          ≡ candidates q chunk
      hits-candidates =
          map-positions q.chunk_size (has by_distance) (hit_at d chunk.rowids.at) (row_at q chunk)
            (λ j l on.
              ap (λ x. record { distance = x; rowid = chunk.rowids.at j })
                (measured j (was_on j l on)))
          ∙ ap (map (row_at q chunk)) (positions-ext q.chunk_size _ _ by_distance-selected)

      pub nearest_of-IsTop :
          (seen top : List (Hit F R))
          → IsTop (λ h. h.distance) q.k seen top
          → IsTop (λ h. h.distance) q.k (seen ++ candidates q chunk) (nearest_of q chunk b top)
      unfolding nearest_of
      nearest_of-IsTop seen top t =
          rw (take-all (min (min q.k q.chunk_size) (length idxs)) idxs length-idxs) (
            subst
              (λ c.
                IsTop (λ h. h.distance) q.k (seen ++ c)
                  (merge_sorted_lists d chunk.rowids.at q.k top idxs))
              hits-candidates
              (merge_sorted_lists-IsTop d chunk.rowids.at q.k seen _ top idxs t
                (IsTop-map (hit_at d chunk.rowids.at) (λ h. h.distance) q.k _ idxs idxs-IsTop)))
