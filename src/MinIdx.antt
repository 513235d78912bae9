-- ===== src/MinIdx.antt =====
-- `min_idx` of crates/sqlite-vec-src/src/sqlite-vec.c, as it is compiled: the repeated linear scan
-- (the heap under SQLITE_VEC_EXPERIMENTAL_MIN_IDX is off). An array of n numbers is a function
-- of its index.
pub mod Positions
pub mod Rounds
pub mod Top
use agos_memory.Base.{ℕ, zero, suc, ◌+◌, Bool, not, ◌&&◌, ◌||◌, List, [], ◌∷◌, if◌then◌else◌, leb}
use agos_memory.Bitmap.{Bitmap, bitmap_set, bitmap_get, bitmap_clear, has}
use agos_memory.Ranking.{FloatOrder}

-- The `while` loop: `left` places are still below n, and the result is n when it runs off the end.
unfoldable pub seek : Bitmap → Bitmap → ℕ → ℕ → ℕ
seek candidates taken zero i = i
seek candidates taken (suc left) i =
    let next = seek candidates taken left (i + 1) in
    if has taken i || not (has candidates i) then next else i

module _ {F : Type 0} ⦃o : FloatOrder F⦄ (distances : ℕ → F) where
  -- The inner `for` loop.
  unfoldable pub scan : Bitmap → Bitmap → ℕ → ℕ → ℕ → ℕ
  scan candidates taken zero i best = best
  scan candidates taken (suc left) i best = scan candidates taken left (i + 1) (
      if o.le (distances i) (distances best) && not (has taken i) && has candidates i
      then i
      else best)

  -- The outer loop with the rounds left: what it writes to `out`. `k_used` is the length.
  unfoldable pub rounds : ℕ → Bitmap → Bitmap → ℕ → List ℕ
  rounds n candidates taken zero = []
  rounds n candidates taken (suc left) =
      let first = seek candidates taken n 0 in
      let best = scan candidates taken n 0 first in
      let more = best ∷ rounds n candidates (bitmap_set taken best 1) left in
      if leb n first then [] else more

  unfoldable pub min_idx : ℕ → Bitmap → ℕ → Bitmap → List ℕ
  min_idx n candidates k taken = rounds n candidates (bitmap_clear taken n) k
