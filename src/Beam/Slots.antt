-- ===== src/Beam/Slots.antt =====
-- Where the binary search ends, and what an insertion there does.
use mathlib.Core.List.Permᴰ
use agos_memory.Base.{
  ℕ, zero, suc, ◌≤◌, ◌<◌, ◌≡◌, refl, true, List, [], ◌∷◌, Permᴰ, arith, length, get_or,
}
use agos_memory.Ranking.{FloatOrder, Below, IsSorted}
use agos_memory.Beam.{insert_at}

module _ {F A : Type 0} ⦃o : FloatOrder F⦄ (key : A → F) where
  -- Reading a sorted list at two places.
  pub IsSorted-get_or :
      (xs : List A) (i j : ℕ) (d : A)
      → IsSorted key xs
      → i < j
      → j < length xs
      → o.le (key (get_or xs i d)) (key (get_or xs j d)) ≡ true
  IsSorted-get_or [] i j d s h l = absurd (omega arith)
  IsSorted-get_or (x ∷ xs) i zero d s h l = absurd (omega arith)
  IsSorted-get_or (x ∷ xs) zero (suc j) d s h l = Below-get_or xs j s.0 (omega arith)
    where
      Below-get_or :
          (ys : List A) (j : ℕ)
          → Below key x ys
          → j < length ys
          → o.le (key x) (key (get_or ys j d)) ≡ true
      Below-get_or [] j b l = absurd (omega arith)
      Below-get_or (y ∷ ys) zero b l = b.0
      Below-get_or (y ∷ ys) (suc j) b l = Below-get_or ys j b.1 (omega arith)
  IsSorted-get_or (x ∷ xs) (suc i) (suc j) d s h l =
      IsSorted-get_or xs i j d s.1 (omega arith) (omega arith)

  -- Everything before place r is at most `x`, everything from r on at least.
  pub record Parts (xs : List A) (x : A) (r : ℕ) : Type 0 where
    pub left : (i : ℕ) → i < r → i < length xs → o.le (key (get_or xs i x)) (key x) ≡ true
    pub right : (i : ℕ) → r ≤ i → i < length xs → o.le (key x) (key (get_or xs i x)) ≡ true

  Parts-tail : (y : A) (ys : List A) (x : A) (r : ℕ) → Parts (y ∷ ys) x (suc r) → Parts ys x r
  Parts-tail y ys x r p = record {
    left = λ i h l. p.left (suc i) (omega arith) (omega arith);
    right = λ i h l. p.right (suc i) (omega arith) (omega arith);
  }

  Below-all :
      (xs : List A) (x d : A)
      → ((i : ℕ) → i < length xs → o.le (key x) (key (get_or xs i d)) ≡ true)
      → Below key x xs
  Below-all [] x d h = tt
  Below-all (y ∷ ys) x d h = (h 0 (omega arith), Below-all ys x d (λ i l. h (suc i) (omega arith)))

  Below-insert_at :
      (y : A) (r : ℕ) (x : A) (ys : List A)
      → o.le (key y) (key x) ≡ true
      → Below key y ys
      → Below key y (insert_at r x ys)
  unfolding insert_at
  Below-insert_at y zero x ys e b = (e, b)
  Below-insert_at y (suc r) x [] e b = (e, tt)
  Below-insert_at y (suc r) x (z ∷ ys) e b = (b.0, Below-insert_at y r x ys e b.1)

  pub IsSorted-insert_at :
      (r : ℕ) (x : A) (xs : List A)
      → IsSorted key xs
      → Parts xs x r
      → IsSorted key (insert_at r x xs)
  unfolding insert_at
  IsSorted-insert_at zero x xs s p = (Below-all xs x x (λ i l. p.right i (omega arith) l), s)
  IsSorted-insert_at (suc r) x [] s p = (tt, tt)
  IsSorted-insert_at (suc r) x (y ∷ ys) s p = (
    Below-insert_at y r x ys (p.left 0 (omega arith) (omega arith)) s.0,
    IsSorted-insert_at r x ys s.1 (Parts-tail y ys x r p),
  )

pub insert_at-Permᴰ : {A : Type 0} (r : ℕ) (x : A) (xs : List A) → Permᴰ (x ∷ xs) (insert_at r x xs)
unfolding insert_at
insert_at-Permᴰ zero x xs = Permᴰ.refl (x ∷ xs)
insert_at-Permᴰ (suc r) x [] = Permᴰ.refl (x ∷ [])
insert_at-Permᴰ (suc r) x (y ∷ ys) =
    Permᴰ.trans (Permᴰ.swap refl refl) (Permᴰ.cons refl (insert_at-Permᴰ r x ys))
