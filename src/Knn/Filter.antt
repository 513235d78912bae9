-- ===== src/Knn/Filter.antt =====
-- What each filter of the loop leaves in the bitmap of a chunk.
use agos_memory.Base.{
  ℕ, ◌%◌, ◌<◌, ◌≡◌, inl, inr, Bool, true, false, not, ◌&&◌, List, [], ◌∷◌, Option, none, some,
  arith, ◌==◌, if◌then◌else◌, Bool-cases, ap, Option-cases, ==_iff, subst,
}
use mathlib.Core.Option.{some-injective}
use agos_memory.Bitmap.{Bitmap, bitmap_set, bitmap_clear, bitmap_and_inplace, for_slots, has}
use agos_memory.Bitmap.Meet.{has-bitmap_and_inplace}
use agos_memory.Bitmap.Loop.{
  Fits, bitmap_clear-Fits, bitmap_and_inplace-Fits, Decides, for_slots-DecidesAll, guarded_set-Fits,
  has-guarded_set,
}
use agos_memory.Ranking.{FloatOrder}
use agos_memory.Knn.{
  Chunk, Argument, metadata, distance, other, DistanceOp, within, rowid_round, filter_rowids,
  filter_metadata, distance_round, filter_distance,
}

-- The rows that `rowid IN (...)` lets through.
abbrev pub rowid_ok : {R V : Type 0} → (R → List R → Bool) → Chunk R V → Option (List R) → ℕ → Bool
rowid_ok bsearch chunk none j = true
rowid_ok bsearch chunk (some ids) j = bsearch (chunk.rowids.at j) ids

-- The bit of a bitmap that may be missing.
abbrev bit_of : Option Bitmap → ℕ → Bool
bit_of none j = false
bit_of (some bm) j = has bm j

-- The slot is in the bitmap of every metadata filter.
abbrev pub metadata_ok :
    {F R V M : Type 0}
    → (M → Chunk R V → Option Bitmap)
    → List (Argument F M)
    → Chunk R V
    → ℕ
    → Bool
metadata_ok filter [] chunk j = true
metadata_ok filter (metadata m ∷ args) chunk j =
    bit_of (filter m chunk) j && metadata_ok filter args chunk j
metadata_ok filter (distance op t ∷ args) chunk j = metadata_ok filter args chunk j
metadata_ok filter (other ∷ args) chunk j = metadata_ok filter args chunk j

-- The distance satisfies every distance constraint.
abbrev pub distance_ok : {F M : Type 0} ⦃o : FloatOrder F⦄ → List (Argument F M) → F → Bool
distance_ok [] x = true
distance_ok (metadata m ∷ args) x = distance_ok args x
distance_ok (distance op t ∷ args) x = within op x t && distance_ok args x
distance_ok (other ∷ args) x = distance_ok args x

-- A filter keeps, below n, the slots of `b` that `p` accepts.
pub record Keeps (n : ℕ) (p : ℕ → Bool) (b b' : Bitmap) : Type 0 where
  pub fits : Fits n b'
  pub slots : (j : ℕ) → j < n → has b' j ≡ (has b j && p j)

module _ {R V : Type 0} (bsearch : R → List R → Bool) (n : ℕ) (chunk : Chunk R V) where
  rowid_round-Decides :
      (ids : List R) (i : ℕ) (bm : Bitmap)
      → i < n
      → Fits n bm
      → Decides n
          (λ j old. if has chunk.validity j then bsearch (chunk.rowids.at j) ids else old)
          i
          bm
          (rowid_round bsearch chunk ids i bm)
  unfolding rowid_round
  rowid_round-Decides ids i bm l f =
      let v = if bsearch (chunk.rowids.at i) ids then 1 else 0 in
      record {
        fits = guarded_set-Fits n i v (has chunk.validity i) bm f;
        slots = λ j. ground (arith, has-guarded_set n i j v (has chunk.validity i) bm l f);
      }

  pub filter_rowids-Keeps :
      (ids : Option (List R)) (bm b : Bitmap)
      → n % 8 ≡ 0
      → Fits n bm
      → Fits n b
      → ((j : ℕ) → j < n → has b j ≡ has chunk.validity j)
      → Keeps n (rowid_ok bsearch chunk ids) b (filter_rowids bsearch n chunk ids bm b)
  unfolding filter_rowids
  filter_rowids-Keeps none bm b e fm fb valid = record { fits = fb; slots = λ j l. ground arith }
  filter_rowids-Keeps (some ids) bm b e fm fb valid =
      let filled =
        for_slots-DecidesAll n (rowid_round bsearch chunk ids) _ (rowid_round-Decides ids) n 0
          (bitmap_clear bm n) (omega arith) (bitmap_clear-Fits n n bm fm) in
      record {
        fits = bitmap_and_inplace-Fits n n b _ fb;
        slots = λ j l. ground (
          arith,
          has-bitmap_and_inplace b
              (for_slots (rowid_round bsearch chunk ids) n 0 (bitmap_clear bm n)) n j,
          filled.slots j,
          valid j,
          fb.room,
        );
      }

-- A slot that fails a test is switched off.
rejected :
    (n i j : ℕ) (w : ℕ → Bool) (b : Bitmap)
    → i < n
    → Fits n b
    → has (if has b i && not (w i) then bitmap_set b i 0 else b) j
      ≡ (if i == j then has b j && w j else has b j)
rejected n i j w b l f = elim (Bool-cases (i == j)) [
  | inl same ↦
      let e = (==_iff i j).0 same in
      ground (
        arith,
        has-guarded_set n i j 0 (has b i && not (w i)) b l f,
        ap w e,
        ap (λ (x : ℕ). has b x) e,
      )
  | inr other_slot ↦ ground (arith, has-guarded_set n i j 0 (has b i && not (w i)) b l f)
]

module _ {F R V M : Type 0} (metadata_filter : M → Chunk R V → Option Bitmap) (n : ℕ) where
  pub filter_metadata-Keeps :
      (args : List (Argument F M)) (chunk : Chunk R V) (b b' : Bitmap)
      → n % 8 ≡ 0
      → Fits n b
      → filter_metadata metadata_filter n chunk args b ≡ some b'
      → Keeps n (metadata_ok metadata_filter args chunk) b b'
  unfolding filter_metadata
  filter_metadata-Keeps [] chunk b b' e f h =
      subst (Keeps n (λ j. true) b) (some-injective b b' h)
        (record { fits = f; slots = λ j l. ground arith })
  filter_metadata-Keeps (metadata m ∷ args) chunk b b' e f h =
      elim (Option-cases (metadata_filter m chunk)) [
        | inl failed ↦ cc (rw failed at h)
        | inr (bm, got) ↦
            let more =
              filter_metadata-Keeps args chunk (bitmap_and_inplace b bm n) b' e
                (bitmap_and_inplace-Fits n n b bm f) (rw got at h) in
            record {
              fits = more.fits;
              slots = λ j l.
                  rw got (ground (arith, more.slots j l, has-bitmap_and_inplace b bm n j, f.room));
            }
      ]
  filter_metadata-Keeps (distance op t ∷ args) chunk b b' e f h =
      filter_metadata-Keeps args chunk b b' e f h
  filter_metadata-Keeps (other ∷ args) chunk b b' e f h =
      filter_metadata-Keeps args chunk b b' e f h

module _ {F : Type 0} ⦃o : FloatOrder F⦄ (d : ℕ → F) (n : ℕ) where
  distance_round-Decides :
      (op : DistanceOp) (t : F) (i : ℕ) (bm : Bitmap)
      → i < n
      → Fits n bm
      → Decides n (λ j old. old && within op (d j) t) i bm (distance_round d op t i bm)
  unfolding distance_round
  distance_round-Decides op t i bm l f =
      let c = has bm i && not (within op (d i) t) in
      record {
        fits = guarded_set-Fits n i 0 c bm f;
        slots = λ j. rejected n i j (λ x. within op (d x) t) bm l f;
      }

  pub filter_distance-Keeps :
      {M : Type 0} (args : List (Argument F M)) (b : Bitmap)
      → Fits n b
      → Keeps n (λ j. distance_ok args (d j)) b (filter_distance d n args b)
  unfolding filter_distance
  filter_distance-Keeps [] b f = record { fits = f; slots = λ j l. ground arith }
  filter_distance-Keeps (metadata m ∷ args) b f = filter_distance-Keeps args b f
  filter_distance-Keeps (distance op t ∷ args) b f =
      let one =
        for_slots-DecidesAll n (distance_round d op t) _ (distance_round-Decides op t) n 0 b
          (omega arith) f in
      let more = filter_distance-Keeps args (for_slots (distance_round d op t) n 0 b) one.fits in
      record { fits = more.fits; slots = λ j l. ground (arith, one.slots j, more.slots j) }
  filter_distance-Keeps (other ∷ args) b f = filter_distance-Keeps args b f
