-- ===== src/Nodes/Count.antt =====
-- The number of a node's neighbours, `diskann_validity_count`.
use agos_memory.Base.{
  ℕ, zero, suc, ◌+◌, ◌/◌, ◌<◌, ◌≡◌, refl, ap, ◌∙◌, arith, true, false, ◌&&◌, ltb, leb, inl, inr,
  Bool-cases, ==_iff, length, if◌then◌else◌, ◌==◌,
}
use agos_memory.Bitmap.{Bitmap}
use agos_memory.Bitmap.Access.{IsBytes, bitmap_get-bitmap_set}
use agos_memory.Nodes.{diskann_validity_get, diskann_validity_set}

-- `for (int i = 0; i < n_neighbors; i++)` with the rounds left.
unfoldable pub count_loop : Bitmap → ℕ → ℕ → ℕ → ℕ
count_loop validity zero i count = count
count_loop validity (suc left) i count =
    count_loop validity left (i + 1) (count + diskann_validity_get validity i)

unfoldable pub diskann_validity_count : Bitmap → ℕ → ℕ
diskann_validity_count validity n_neighbors = count_loop validity n_neighbors 0 0

count_loop_shift :
    (validity : Bitmap) (left i a b : ℕ)
    → count_loop validity left i (a + b) ≡ count_loop validity left i a + b
unfolding count_loop
count_loop_shift validity zero i a b = refl
count_loop_shift validity (suc left) i a b =
    ap (count_loop validity left (i + 1)) (omega arith)
    ∙ count_loop_shift validity left (i + 1) (a + diskann_validity_get validity i) b

module _ (validity : Bitmap) (p : ℕ) (bytes : IsBytes validity) (room : p / 8 < length validity)
    (off : diskann_validity_get validity p ≡ 0) where
  abbrev after : Bitmap
  after = diskann_validity_set validity p 1

  bit_after :
      (i : ℕ)
      → diskann_validity_get after i ≡ (if p == i then 1 else diskann_validity_get validity i)
  unfolding diskann_validity_get diskann_validity_set
  bit_after i = bitmap_get-bitmap_set validity p i 1 bytes room

  -- The loop counts one more when the slot is among those left.
  count_loop_set :
      (left i a : ℕ)
      → count_loop after left i a
        ≡ count_loop validity left i a + (if leb i p && ltb p (i + left) then 1 else 0)
  unfolding count_loop
  count_loop_set zero i a = ground arith
  count_loop_set (suc left) i a = elim (Bool-cases (p == i)) [
    | inl here ↦ ground (
      arith,
      count_loop_set left (i + 1) (a + diskann_validity_get after i),
      ap (count_loop validity left (i + 1)) (counted here),
      count_loop_shift validity left (i + 1) (a + diskann_validity_get validity i) 1,
    )
    | inr there ↦ ground (
      arith,
      count_loop_set left (i + 1) (a + diskann_validity_get after i),
      ap (count_loop validity left (i + 1)) (uncounted there),
    )
  ]
    where
      counted :
          (p == i) ≡ true
          → a + diskann_validity_get after i ≡ a + diskann_validity_get validity i + 1
      counted h =
          let same : p ≡ i = (==_iff p i).0 h in
          ground (arith, bit_after i, off, ap (diskann_validity_get validity) same)

      uncounted :
          (p == i) ≡ false → a + diskann_validity_get after i ≡ a + diskann_validity_get validity i
      uncounted h = ground (arith, bit_after i)

  -- Making a free slot valid raises the number of neighbours by one when the slot is below the number
  -- of slots counted, and else leaves it, for a bitmap of bytes that has the slot.
  pub diskann_validity_count-set :
      (n : ℕ)
      → diskann_validity_count (diskann_validity_set validity p 1) n
        ≡ diskann_validity_count validity n + (if ltb p n then 1 else 0)
  unfolding diskann_validity_count
  diskann_validity_count-set n = count_loop_set n 0 0 ∙ ground arith
