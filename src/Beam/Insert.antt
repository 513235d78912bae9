-- ===== src/Beam/Insert.antt =====
-- A rowid that is new: the list keeps the nearest candidates, in order, up to its capacity.
use agos_memory.Base.{
  ℕ, zero, suc, ◌+◌, ◌-◌, ◌/◌, ◌≤◌, ◌<◌, ◌≡◌, inl, inr, true, false, List, ◌∷◌, Permᴰ, arith, ltb,
  Bool-cases, length, get_or, subst, sym, ◌==◌, ==_iff,
}
use agos_memory.Ranking.{FloatOrder, IsSorted}
use agos_memory.Beam.{Candidate, insertion_point, fresh, insert_new}
use agos_memory.Beam.Slots.{IsSorted-get_or, Parts, IsSorted-insert_at, insert_at-Permᴰ}

module _ {F : Type 0} ⦃o : FloatOrder F⦄ where
  abbrev pub far : Candidate F → F
  far c = c.distance

  abbrev Left : List (Candidate F) → Candidate F → ℕ → Type 0
  Left xs x n = (i : ℕ) → i < n → i < length xs → o.le (get_or xs i x).distance x.distance ≡ true

  abbrev Right : List (Candidate F) → Candidate F → ℕ → Type 0
  Right xs x n = (i : ℕ) → n ≤ i → i < length xs → o.le x.distance (get_or xs i x).distance ≡ true

  Left-widen :
      (xs : List (Candidate F)) (x : Candidate F) (m : ℕ)
      → IsSorted far xs
      → m < length xs
      → o.le x.distance (get_or xs m x).distance ≡ false
      → Left xs x (m + 1)
  Left-widen xs x m s l e i h k = elim (Bool-cases (i == m)) [
    | inl same ↦
        subst (λ j. o.le (get_or xs j x).distance x.distance ≡ true) (sym ((==_iff i m).0 same))
          (o.le_total _ _ e)
    | inr other ↦
        o.le_trans _ _ _ (IsSorted-get_or far xs i m x s (ground arith) l) (o.le_total _ _ e)
  ]

  Right-widen :
      (xs : List (Candidate F)) (x : Candidate F) (m : ℕ)
      → IsSorted far xs
      → o.le x.distance (get_or xs m x).distance ≡ true
      → Right xs x m
  Right-widen xs x m s e i h k = elim (Bool-cases (i == m)) [
    | inl same ↦
        subst (λ j. o.le x.distance (get_or xs j x).distance ≡ true) (sym ((==_iff i m).0 same)) e
    | inr other ↦ o.le_trans _ _ _ e (IsSorted-get_or far xs m i x s (ground arith) k)
  ]

  -- With enough fuel the search ends at a place that parts the list.
  insertion_point-Parts :
      (fuel : ℕ) (xs : List (Candidate F)) (x : Candidate F) (lo hi : ℕ)
      → hi - lo ≤ fuel
      → lo ≤ hi
      → hi ≤ length xs
      → IsSorted far xs
      → Left xs x lo
      → Right xs x hi
      → Parts far xs x (insertion_point fuel x.distance xs x lo hi)
  unfolding insertion_point
  insertion_point-Parts zero xs x lo hi h le top s l r = record {
    left = l;
    right = λ i m k. r i (omega arith) k;
  }
  insertion_point-Parts (suc fuel) xs x lo hi h le top s l r = elim (Bool-cases (ltb lo hi)) [
    | inr ended ↦ rw ended (record { left = l; right = λ i m k. r i (ground arith) k })
    | inl going ↦
        let inside : lo < hi = ground arith in
        elim (Bool-cases (o.le x.distance (get_or xs ((lo + hi) / 2) x).distance)) [
          | inl e ↦
              rw (going, e)
                (insertion_point-Parts fuel xs x lo ((lo + hi) / 2) (omega arith) (omega arith)
                  (omega arith) s l (Right-widen xs x ((lo + hi) / 2) s e))
          | inr e ↦
              rw (going, e)
                (insertion_point-Parts fuel xs x ((lo + hi) / 2 + 1) hi (omega arith) (omega arith)
                  top s (Left-widen xs x ((lo + hi) / 2) s (omega arith) e) r)
        ]
  ]

  insert_new-Parts :
      (rowid : ℕ) (d : F) (xs : List (Candidate F))
      → IsSorted far xs
      → Parts far xs
          (fresh rowid d)
          (insertion_point (length xs) d xs (fresh rowid d) 0 (length xs))
  insert_new-Parts rowid d xs s =
      insertion_point-Parts (length xs) xs (fresh rowid d) 0 (length xs) (omega arith) (omega arith)
        (omega arith) s (λ i h k. absurd (omega arith)) (λ i h k. absurd (omega arith))

  pub insert_new-IsSorted :
      (rowid : ℕ) (d : F) (xs : List (Candidate F))
      → IsSorted far xs
      → IsSorted far (insert_new rowid d xs)
  unfolding insert_new
  insert_new-IsSorted rowid d xs s =
      IsSorted-insert_at far _ (fresh rowid d) xs s (insert_new-Parts rowid d xs s)

  pub insert_new-Permᴰ :
      (rowid : ℕ) (d : F) (xs : List (Candidate F))
      → Permᴰ (fresh rowid d ∷ xs) (insert_new rowid d xs)
  unfolding insert_new
  insert_new-Permᴰ rowid d xs = insert_at-Permᴰ _ (fresh rowid d) xs
