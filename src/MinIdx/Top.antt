-- ===== src/MinIdx/Top.antt =====
-- `min_idx` returns the k nearest candidates.
use agos_memory.Base.{
  ℕ, zero, suc, ◌*◌, ◌%◌, List, ◌≤◌, ◌<◌, ◌≡◌, refl, inl, inr, Bool, true, false, ◌∷◌, arith, ◌==◌,
  leb, if◌then◌else◌, length, subst,
}
use agos_memory.Bitmap.{Bitmap, bitmap_set, bitmap_clear, has}
use agos_memory.Bitmap.Access.{
  IsBytes, has-bitmap_set, has-bitmap_clear, bitmap_set-IsBytes, length-bitmap_set,
  bitmap_clear-IsBytes, length-bitmap_clear,
}
use agos_memory.Ranking.{FloatOrder, IsTop}
use agos_memory.Ranking.Laws.{IsTop-cons, IsTop-nothing, IsTop-zero}
use agos_memory.MinIdx.{seek, scan, rounds, min_idx}
use agos_memory.MinIdx.Positions.{
  positions, positions-ext, positions-none, All-positions, positions-remove,
}
use agos_memory.MinIdx.Rounds.{free, seek_lem, Found, scan-Found}

not_taken : (m j : ℕ) (a b : Bool) → a ≡ (if m == j then false else b) → a ≡ true → b ≡ true
not_taken m j a b e h = ground arith

module _ {F : Type 0} ⦃o : FloatOrder F⦄ (d : ℕ → F) (n : ℕ) (candidates : Bitmap) where
  -- Marking a place as taken makes it, and nothing else, no longer free.
  free-bitmap_set :
      (taken : Bitmap) (m j : ℕ)
      → IsBytes taken
      → n ≤ 8 * length taken
      → m < n
      → free candidates (bitmap_set taken m 1) j
        ≡ (if m == j then false else free candidates taken j)
  free-bitmap_set taken m j h l k = ground (arith, has-bitmap_set taken m j 1 h)

  -- One round takes the nearest free place, and the later rounds choose among the others.
  IsTop-round :
      (k : ℕ) (taken : Bitmap) (first best : ℕ) (taken' : Bitmap) {out : List ℕ}
      → IsBytes taken
      → n ≤ 8 * length taken
      → Found d candidates taken 0 n first best
      → taken' ≡ bitmap_set taken best 1
      → IsTop d k (positions n (free candidates taken')) out
      → IsTop d (suc k) (positions n (free candidates taken)) (best ∷ out)
  IsTop-round k taken first best taken' h l found e later =
      IsTop-cons d k best _ (positions n (free candidates taken')) _
        (positions-remove n best (free candidates taken) (free candidates taken') found.in_range
          found.is_free (λ j m. without j))
        (All-positions n (free candidates taken') (λ j. o.le (d best) (d j) ≡ true)
          (λ j m f. found.nearest j (omega arith) m (still_free j f)))
        later
    where
      without :
          (j : ℕ)
          → free candidates taken' j ≡ (if best == j then false else free candidates taken j)
      without j = rw e (free-bitmap_set taken best j h l found.in_range)

      still_free : (j : ℕ) → free candidates taken' j ≡ true → free candidates taken j ≡ true
      still_free j f = not_taken best j _ _ (without j) f

  rounds-IsTop :
      (k : ℕ) (taken : Bitmap)
      → IsBytes taken
      → n ≤ 8 * length taken
      → IsTop d k (positions n (free candidates taken)) (rounds d n candidates taken k)
  unfolding rounds
  rounds-IsTop zero taken h l = IsTop-zero d _
  rounds-IsTop (suc k) taken h l = elim (seek_lem candidates taken n 0 n (omega arith)) [
    | inl (end, none_free) ↦
        let stop : leb n (seek candidates taken n 0) ≡ true = ground arith in
        rw stop
          (IsTop-nothing d (suc k) _ (positions-none n _ (λ j m. none_free j (omega arith) m)))
    | inr (inside, is_free) ↦
        let go : leb n (seek candidates taken n 0) ≡ false = ground arith in
        let found =
          scan-Found d candidates taken n 0 n (seek candidates taken n 0) (omega arith) inside
            is_free in
        let best = scan d candidates taken n 0 (seek candidates taken n 0) in
        rw go (
          IsTop-round k taken _ best (bitmap_set taken best 1) h l found refl (
            rounds-IsTop k (bitmap_set taken best 1) (bitmap_set-IsBytes taken best 1 h)
              (omega (arith, length-bitmap_set taken best 1))))
  ]

  -- The `k` nearest candidates, nearest first; all of them if there are fewer.
  pub min_idx-IsTop :
      (k : ℕ) (taken : Bitmap)
      → IsBytes taken
      → n % 8 ≡ 0
      → n ≤ 8 * length taken
      → IsTop d k (positions n (has candidates)) (min_idx d n candidates k taken)
  unfolding min_idx
  min_idx-IsTop k taken h e l =
      subst (λ items. IsTop d k items (rounds d n candidates (bitmap_clear taken n) k))
        (positions-ext n _ _ (λ j m. untaken j m))
        (rounds-IsTop k (bitmap_clear taken n) cleared-IsBytes cleared-length)
    where
      untaken : (j : ℕ) → j < n → free candidates (bitmap_clear taken n) j ≡ has candidates j
      untaken j m = ground (arith, has-bitmap_clear taken n j l)

      cleared-IsBytes : IsBytes (bitmap_clear taken n)
      cleared-IsBytes = bitmap_clear-IsBytes taken n h

      cleared-length : n ≤ 8 * length (bitmap_clear taken n)
      cleared-length = omega (arith, length-bitmap_clear taken n)
