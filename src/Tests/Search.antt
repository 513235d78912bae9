-- ===== src/Tests/Search.antt =====
-- The nearest neighbour search over two chunks of eight slots.
use mathlib.Core.List.Permᴰ
use agos_memory.Base.{
  ◌↔◌, All, ℕ, ◌+◌, ◌-◌, ◌*◌, ◌≡◌, refl, Bool, true, false, ◌||◌, List, [], ◌∷◌, ◌++◌, Option, none,
  some, arith, leb, ◌==◌, map,
}
use agos_memory.Bitmap.{
  bitmap_get, bitmap_set, bitmap_clear, bitmap_and_inplace, has, memcpy, memset, and_loop, byte_on,
  byte_off, for_slots, bitmap_copy,
}
use agos_memory.Ranking.{FloatOrder, Hit, IsTop}
use agos_memory.Merge.{hit_at, merge_sorted_lists}
use agos_memory.Merge.Top.{merge_sorted_lists-IsTop}
use agos_memory.MinIdx.{seek, scan, rounds, min_idx}
use agos_memory.MinIdx.Positions.{positions}
use agos_memory.MinIdx.Top.{min_idx-IsTop}
use agos_memory.Knn.{
  Chunk, metadata, distance, DistanceOp, Query, knn_chunks_iter, chunks_loop, step_chunk,
  nearest_of, prefilter, filter_rowids, rowid_round, filter_metadata, filter_distance,
  distance_round,
}
use agos_memory.Knn.Candidates.{all_candidates}
use agos_memory.Knn.Search.{IsRead, knn_chunks_iter-IsTop}
use agos_memory.Knn.Errors.{IsSound, knn_chunks_iter-IsSound}

pub ℕ-le_total : (a b : ℕ) → leb a b ≡ false → leb b a ≡ true
ℕ-le_total a b h = ground arith

pub ℕ-le_trans : (a b c : ℕ) → leb a b ≡ true → leb b c ≡ true → leb a c ≡ true
ℕ-le_trans a b c h k = ground arith

-- Whole numbers in the place of `f32`.
instance abbrev pub ℕ_order : FloatOrder ℕ
ℕ_order = record { le = leb; le_total = ℕ-le_total; le_trans = ℕ-le_trans }

abbrev elem : ℕ → List ℕ → Bool
elem x [] = false
elem x (y ∷ ys) = x == y || elem x ys

-- Slots 0, 1 and 2 of the first chunk hold rows 10, 11 and 12; all of the second holds 20 to 27.
abbrev first : Chunk ℕ ℕ
first = record {
  validity = 7 ∷ [];
  rowids = record { size = 8; at = λ i. 10 + i };
  vectors = record { size = 8; at = λ i. 3 * i };
}

abbrev second : Chunk ℕ ℕ
second = record {
  validity = 255 ∷ [];
  rowids = record { size = 8; at = λ i. 20 + i };
  vectors = record { size = 8; at = λ i. 2 * i };
}

-- The three nearest to 5, of the rows with an even slot or slot 1, at a distance of at most 3.
abbrev query : Query ℕ ℕ ℕ ℕ
query = record {
  chunk_size = 8;
  k = 3;
  args = metadata 0x57 ∷ distance DistanceOp.le 3 ∷ [];
  rowids_in = some (11 ∷ 12 ∷ 20 ∷ 22 ∷ 23 ∷ 24 ∷ []);
  distance_to = λ v. (v - 5) + (5 - v);
  zero_distance = 0;
  bsearch = elem;
  metadata_filter = λ m chunk. some (m ∷ []);
}

abbrev rows : List (Option (Chunk ℕ ℕ))
rows = some first ∷ some second ∷ []

-- Row 22 has distance 1, row 12 distance 1, row 11 distance 2; row 24 comes fourth.
search_runs :
    knn_chunks_iter query true rows
    ≡ some (
        record { distance = 1; rowid = 12 }
        ∷ record { distance = 1; rowid = 22 }
        ∷ record { distance = 2; rowid = 11 }
        ∷ [])
unfolding knn_chunks_iter chunks_loop step_chunk nearest_of prefilter filter_rowids rowid_round
    filter_metadata filter_distance distance_round for_slots bitmap_and_inplace and_loop
    bitmap_clear bitmap_copy memset memcpy bitmap_set byte_on byte_off bitmap_get min_idx rounds
    seek scan merge_sorted_lists
search_runs = refl

rows-IsRead : IsRead query (some first) × (IsRead query (some second) × Unit {0})
rows-IsRead = (
  record {
    bytes = (omega arith, tt);
    validity_size = refl;
    rowids_size = refl;
    vectors_size = refl;
    answers = ((0x57 ∷ [], refl), tt);
  },
  (
    record {
      bytes = (omega arith, tt);
      validity_size = refl;
      rowids_size = refl;
      vectors_size = refl;
      answers = ((0x57 ∷ [], refl), tt);
    },
    tt,
  ),
)

knn_chunks_iter-IsTop_example :
    (out : List (Hit ℕ ℕ)) × (knn_chunks_iter query true rows ≡ some out)
    × IsTop (λ h. h.distance) 3 (all_candidates query rows) out
knn_chunks_iter-IsTop_example = knn_chunks_iter-IsTop query refl rows rows-IsRead

knn_chunks_iter-IsSound_example :
    ((out : List (Hit ℕ ℕ)) × (knn_chunks_iter query true (some first ∷ none ∷ some second ∷ [])
        ≡ some out))
    ↔ ((true ≡ true) × All (IsSound query) (some first ∷ none ∷ some second ∷ []))
knn_chunks_iter-IsSound_example =
    knn_chunks_iter-IsSound query true (some first ∷ none ∷ some second ∷ [])

abbrev d : ℕ → ℕ
d i = (i - 3) + (3 - i)

min_idx-IsTop_example :
    IsTop d 2 (positions 8 (has (0xf6 ∷ []))) (min_idx d 8 (0xf6 ∷ []) 2 (0 ∷ []))
min_idx-IsTop_example =
    min_idx-IsTop d 8 (0xf6 ∷ []) 2 (0 ∷ []) (omega arith, tt) refl (omega arith)

-- Places 2 and 4 are as near as it gets.
min_idx_runs : min_idx d 8 (0xf6 ∷ []) 2 (0 ∷ []) ≡ 4 ∷ 2 ∷ []
unfolding min_idx rounds seek scan bitmap_clear memset bitmap_set byte_on bitmap_get
min_idx_runs = refl

abbrev pub hit : ℕ → ℕ → Hit ℕ ℕ
hit d r = record { distance = d; rowid = r }

abbrev left : List (Hit ℕ ℕ)
left = hit 1 10 ∷ hit 4 11 ∷ []

left-IsTop : IsTop (λ h. h.distance) 2 (left ++ hit 9 12 ∷ []) left
left-IsTop = record {
  rest = hit 9 12 ∷ [];
  split = Permᴰ.refl (left ++ hit 9 12 ∷ []);
  sorted = ((refl, tt), (tt, tt));
  below = ((refl, tt), ((refl, tt), tt));
  full = refl;
}

right-IsTop :
    IsTop
      (λ h. h.distance)
      2
      (hit 2 32 ∷ hit 3 33 ∷ [])
      (map (hit_at (λ i. i) (λ i. 30 + i)) (2 ∷ 3 ∷ []))
right-IsTop = record {
  rest = [];
  split = Permᴰ.refl (hit 2 32 ∷ hit 3 33 ∷ []);
  sorted = ((refl, tt), (tt, tt));
  below = (tt, (tt, tt));
  full = refl;
}

merge_sorted_lists-IsTop_example :
    IsTop
      (λ h. h.distance)
      2
      ((left ++ hit 9 12 ∷ []) ++ hit 2 32 ∷ hit 3 33 ∷ [])
      (merge_sorted_lists (λ i. i) (λ i. 30 + i) 2 left (2 ∷ 3 ∷ []))
merge_sorted_lists-IsTop_example =
    merge_sorted_lists-IsTop (λ i. i) (λ i. 30 + i) 2 (left ++ hit 9 12 ∷ [])
      (hit 2 32 ∷ hit 3 33 ∷ []) left (2 ∷ 3 ∷ []) left-IsTop right-IsTop
