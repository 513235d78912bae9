-- ===== src/MinIdx/Rounds.antt =====
-- The two inner loops of `min_idx`: where they stop, and what they find.
use agos_memory.Base.{
  ℕ, zero, suc, ◌+◌, ◌≤◌, ◌<◌, ◌≡◌, ◌⊎◌, inl, inr, Bool, true, false, not, ◌&&◌, ◌||◌, arith,
  Bool-cases, ◌==◌, ==_iff, subst, sym,
}
use agos_memory.Bitmap.{Bitmap, has}
use agos_memory.Ranking.{FloatOrder}
use agos_memory.MinIdx.{seek, scan}

-- A candidate that no earlier round took.
abbrev pub free : Bitmap → Bitmap → ℕ → Bool
free candidates taken i = not (has taken i) && has candidates i

module _ (candidates taken : Bitmap) where
  abbrev ok : ℕ → Bool
  ok i = free candidates taken i

  here_or_later : (i j : ℕ) → ok i ≡ false → i ≤ j → (i + 1 ≤ j → ok j ≡ false) → ok j ≡ false
  here_or_later i j e l later = elim (Bool-cases (i == j)) [
    | inl same ↦ subst (λ x. ok x ≡ false) ((==_iff i j).0 same) e
    | inr other ↦ later (ground arith)
  ]

  -- Either no place from i on is free, or the first free place is found.
  pub seek_lem :
      (left i n : ℕ)
      → i + left ≡ n
      → ((seek candidates taken left i ≡ n) × ((j : ℕ) → i ≤ j → j < n → ok j ≡ false))
        ⊎ ((seek candidates taken left i < n) × (ok (seek candidates taken left i) ≡ true))
  unfolding seek
  seek_lem zero i n e = inl (omega arith, λ j l r. absurd (omega arith))
  seek_lem (suc left) i n e = elim (Bool-cases (ok i)) [
    | inl found ↦ inr (ground (arith))
    | inr passed ↦
        let on : (has taken i || not (has candidates i)) ≡ true = ground arith in
        rw on (elim (seek_lem left (i + 1) n (omega arith)) [
          | inl (end, none_free) ↦
              inl (end, λ j l r. here_or_later i j passed l (λ m. none_free j m r))
          | inr found ↦ inr found
        ])
  ]

module _ {F : Type 0} ⦃o : FloatOrder F⦄ (d : ℕ → F) (candidates taken : Bitmap) where
  abbrev Near : ℕ → ℕ → Type 0
  Near x y = o.le (d x) (d y) ≡ true

  Near-refl : (x : ℕ) → Near x x
  Near-refl x = elim (Bool-cases (o.le (d x) (d x))) [ inl e ↦ e | inr e ↦ o.le_total _ _ e ]

  -- What the scan makes of its best place so far.
  pub record Found (i n best r : ℕ) : Type 0 where
    pub is_free : free candidates taken r ≡ true
    pub in_range : r < n
    improves : Near r best
    pub nearest : (j : ℕ) → i ≤ j → j < n → free candidates taken j ≡ true → Near r j

  abbrev better : ℕ → ℕ → Bool
  better i best = o.le (d i) (d best) && not (has taken i) && has candidates i

  -- One place more in front: the best so far changes from `best` to `kept`.
  Found-cons :
      (i n best kept r : ℕ)
      → Near kept best
      → (free candidates taken i ≡ true → Near kept i)
      → Found (i + 1) n kept r
      → Found i n best r
  Found-cons i n best kept r b k h = record {
    is_free = h.is_free;
    in_range = h.in_range;
    improves = o.le_trans (d r) (d kept) (d best) h.improves b;
    nearest = λ j l m g. elim (Bool-cases (i == j)) [
      | inl same ↦
          let ij = (==_iff i j).0 same in
          o.le_trans (d r) (d kept) (d j) h.improves
            (subst (Near kept) ij (k (subst (λ x. free candidates taken x ≡ true) (sym ij) g)))
      | inr other ↦ h.nearest j (ground arith) m g
    ];
  }

  pub scan-Found :
      (left i n best : ℕ)
      → i + left ≡ n
      → best < n
      → free candidates taken best ≡ true
      → Found i n best (scan d candidates taken left i best)
  unfolding scan
  scan-Found zero i n best e l f = record {
    is_free = f;
    in_range = l;
    improves = Near-refl best;
    nearest = λ j a b g. absurd (omega arith);
  }
  scan-Found (suc left) i n best e l f = elim (Bool-cases (better i best)) [
    | inl yes_better ↦
        let here : Near i best = ground arith in
        rw yes_better (
          Found-cons i n best i _ here (λ _. Near-refl i)
            (scan-Found left (i + 1) n i (omega arith) (omega arith) (ground arith)))
    | inr no_better ↦
        let here : free candidates taken i ≡ true → Near best i = not_better no_better in
        rw no_better (
          Found-cons i n best best _ (Near-refl best) here
            (scan-Found left (i + 1) n best (omega arith) l f))
  ]
    where
      not_better : better i best ≡ false → free candidates taken i ≡ true → Near best i
      not_better b g = o.le_total (d i) (d best) (ground arith)
