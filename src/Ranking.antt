-- ===== src/Ranking.antt =====
-- What "the k nearest" means: the comparison of distances, hits, and the specification that the
-- selection routines of crates/sqlite-vec-src/src/sqlite-vec.c are proved against.
pub mod Laws
use agos_memory.Base.{ℕ, Bool, true, false, not, List, [], ◌∷◌, ◌++◌, ◌≡◌, Permᴰ, All, length, min}

-- `f32` and its `<=`. The laws hold of all values but NaN.
pub record FloatOrder (F : Type 0) : Type 0 where
  pub le : F → F → Bool
  pub le_total : (a b : F) → le a b ≡ false → le b a ≡ true
  pub le_trans : (a b c : F) → le a b ≡ true → le b c ≡ true → le a c ≡ true

-- A row found, with its distance to the query vector.
pub record Hit (F R : Type 0) : Type 0 where
  pub distance : F
  pub rowid : R

module _ {F : Type 0} ⦃o : FloatOrder F⦄ where
  -- `a < b`, `a > b` and `a >= b`, which are the negations where neither side is NaN.
  abbrev pub float_lt : F → F → Bool
  float_lt a b = not (o.le b a)

  abbrev pub float_gt : F → F → Bool
  float_gt a b = not (o.le a b)

  abbrev pub float_ge : F → F → Bool
  float_ge a b = o.le b a

module _ {F A : Type 0} ⦃o : FloatOrder F⦄ (key : A → F) where
  -- `x` is at most as far as each of `ys`.
  abbrev pub Below : A → List A → Type 0
  Below x ys = All (λ y. o.le (key x) (key y) ≡ true) ys

  abbrev pub IsSorted : List A → Type 0
  IsSorted [] = Unit
  IsSorted (x ∷ xs) = Below x xs × IsSorted xs

  -- `out` is a list of the `k` nearest among `items`, nearest first: it is sorted, what it leaves
  -- out is at most as near as anything in it, and it is as long as `k` and the items allow.
  pub record IsTop (k : ℕ) (items out : List A) : Type 0 where
    pub rest : List A
    pub split : Permᴰ items (out ++ rest)
    pub sorted : IsSorted out
    pub below : All (λ x. Below x rest) out
    pub full : length out ≡ min k (length items)
