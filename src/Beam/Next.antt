-- ===== src/Beam/Next.antt =====
-- `diskann_candidate_list_next_unvisited`: in a sorted list the first unvisited one is the nearest.
use agos_memory.Base.{
  ℕ, suc, ◌+◌, ◌<◌, ◌≡◌, refl, inl, inr, Bool, true, false, List, [], ◌∷◌, Option, none, some,
  arith, Bool-cases, length, get_or, not, if◌then◌else◌, All, All-map_imp,
}
use agos_memory.Ranking.{FloatOrder, Below, IsSorted}
use agos_memory.Beam.{Candidate, next_unvisited}
use agos_memory.Beam.Insert.{far}

module _ {F : Type 0} ⦃o : FloatOrder F⦄ (blank : Candidate F) where
  -- For none all have been visited. For a place, counted from `first`, the candidate there has not,
  -- and no unvisited one is nearer.
  pub IsNext : ℕ → List (Candidate F) → Option ℕ → Type 0
  IsNext first xs none = All (λ c. c.visited ≡ true) xs
  IsNext first xs (some place) =
      (i : ℕ) × (place ≡ first + i)
      × (i < length xs)
      × ((get_or xs i blank).visited ≡ false)
      × All (λ c. c.visited ≡ false → o.le (get_or xs i blank).distance c.distance ≡ true) xs

  IsNext-cons :
      (first : ℕ) (x : Candidate F) (xs : List (Candidate F)) (r : Option ℕ)
      → x.visited ≡ true
      → IsNext (first + 1) xs r
      → IsNext first (x ∷ xs) r
  unfolding IsNext
  IsNext-cons first x xs none e h = (e, h)
  IsNext-cons first x xs (some place) e h = (
    suc h.0,
    omega (arith, h.1),
    omega (arith, h.2),
    h.3,
    ((λ f. absurd (differ x.visited e f)), h.4),
  )
    where
      differ : (b : Bool) → b ≡ true → b ≡ false → ⊥
      differ b e f = ground arith

  le_self : (a : F) → o.le a a ≡ true
  le_self a = elim (Bool-cases (o.le a a)) [ inl e ↦ e | inr e ↦ o.le_total a a e ]

  IsNext-head :
      (first : ℕ) (x : Candidate F) (xs : List (Candidate F))
      → x.visited ≡ false
      → Below far x xs
      → IsNext first (x ∷ xs) (some first)
  unfolding IsNext
  IsNext-head first x xs e b = (
    0,
    omega arith,
    omega arith,
    e,
    ((λ f. le_self x.distance), All-map_imp _ _ xs (λ y h f. h) b),
  )

  -- In a sorted list the result is the place of the nearest unvisited candidate, or none when every
  -- candidate has been visited.
  pub next_unvisited-IsNext :
      (xs : List (Candidate F)) (first : ℕ)
      → IsSorted far xs
      → IsNext first xs (next_unvisited first xs)
  unfolding next_unvisited IsNext
  next_unvisited-IsNext [] first s = tt
  next_unvisited-IsNext (x ∷ xs) first s =
      choose (next_unvisited-IsNext xs (first + 1) s.1) x.visited refl
    where
      choose :
          IsNext (first + 1) xs (next_unvisited (first + 1) xs)
          → (b : Bool) → x.visited ≡ b
          → IsNext first (x ∷ xs) (if not b then some first else next_unvisited (first + 1) xs)
      choose later true e = IsNext-cons first x xs _ e later
      choose later false e = IsNext-head first x xs e s.0
