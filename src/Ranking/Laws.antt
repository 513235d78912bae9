-- ===== src/Ranking/Laws.antt =====
-- Order facts used wherever hits are ranked, and how permutations regroup.
use mathlib.Core.List.Permᴰ
use mathlib.Core.List.{append_assoc, map-append}
use agos_memory.Base.{
  map, length-map, All, All-Permᴰ, All-append_left, All-append_right, ap, ℕ, suc, ◌≤◌, true, List,
  [], ◌∷◌, ◌++◌, ◌≡◌, refl, sym, ◌⊎◌, inl, inr, Permᴰ, All-map_imp, length, length-append,
  length-Permᴰ, min, arith, subst,
}
use agos_memory.Ranking.{FloatOrder, Below, IsSorted, IsTop}

module _ {F A : Type 0} ⦃o : FloatOrder F⦄ (key : A → F) where
  pub Below-trans :
      (x y : A) (zs : List A) → o.le (key x) (key y) ≡ true → Below key y zs → Below key x zs
  Below-trans x y zs e h = All-map_imp _ _ zs (λ z f. o.le_trans (key x) (key y) (key z) e f) h

  -- Below the head and so below a sorted list.
  pub Below-IsSorted :
      (x y : A) (ys : List A)
      → o.le (key x) (key y) ≡ true
      → IsSorted key (y ∷ ys)
      → Below key x (y ∷ ys)
  Below-IsSorted x y ys e h = (e, Below-trans x y ys e h.0)

-- Nothing is left behind, or the list of `l` elements outlasts the `n` rounds to come.
abbrev pub Covered {ℓ} : {A : Type ℓ} → ℕ → ℕ → List A → Type ℓ
Covered n l rest = (rest ≡ []) ⊎ (n ≤ l)

module _ {ℓ} {A : Type ℓ} where
  pub Covered-empty : (n : ℕ) (rest : List A) → Covered (suc n) 0 rest → rest ≡ []
  Covered-empty n rest (inl e) = e
  Covered-empty n rest (inr h) = absurd (omega arith)

  pub Covered-step : (n l : ℕ) (rest : List A) → Covered (suc n) (suc l) rest → Covered n l rest
  Covered-step n l rest (inl e) = inl e
  Covered-step n l rest (inr h) = inr (omega arith)

  pub Covered-keep : (n l : ℕ) (rest : List A) → Covered (suc n) l rest → Covered n l rest
  Covered-keep n l rest (inl e) = inl e
  Covered-keep n l rest (inr h) = inr (omega arith)

  pub Covered-min :
      (k : ℕ) (items out rest : List A)
      → Permᴰ items (out ++ rest)
      → length out ≡ min k (length items)
      → Covered k (length out) rest
  Covered-min k items out [] p e = inl refl
  Covered-min k items out (r ∷ rest) p e =
      inr (omega (arith, length-Permᴰ p, length-append out (r ∷ rest)))

  pub regroup : (a b c d : List A) → Permᴰ ((a ++ b) ++ (c ++ d)) ((a ++ c) ++ (b ++ d))
  regroup a b c d =
      subst (λ l. Permᴰ l ((a ++ c) ++ (b ++ d))) (sym (append_assoc a b (c ++ d)))
        (subst (Permᴰ (a ++ (b ++ (c ++ d)))) (sym (append_assoc a c (b ++ d)))
          (Permᴰ.append_left a (swap_front b c d)))
    where
      swap_front : (b c d : List A) → Permᴰ (b ++ (c ++ d)) (c ++ (b ++ d))
      swap_front b c d =
          subst (λ l. Permᴰ l (c ++ (b ++ d))) (append_assoc b c d)
            (subst (Permᴰ ((b ++ c) ++ d)) (append_assoc c b d)
              (Permᴰ.append_right d (Permᴰ.append_comm b c)))

module _ {F A : Type 0} ⦃o : FloatOrder F⦄ (key : A → F) where
  -- The nearest of all, in front of the k nearest of the others.
  pub IsTop-cons :
      (k : ℕ) (x : A) (items others out : List A)
      → Permᴰ items (x ∷ others)
      → Below key x others
      → IsTop key k others out
      → IsTop key (suc k) items (x ∷ out)
  IsTop-cons k x items others out p h t =
      let all = All-Permᴰ _ t.split h in
      record {
        rest = t.rest;
        split = Permᴰ.trans p (Permᴰ.cons refl t.split);
        sorted = (All-append_left _ out t.rest all, t.sorted);
        below = (All-append_right _ out t.rest all, t.below);
        full = omega (arith, t.full, length-Permᴰ p);
      }

  pub IsTop-nothing : (k : ℕ) (items : List A) → items ≡ [] → IsTop key k items []
  IsTop-nothing k items e = record {
    rest = [];
    split = subst (λ l. Permᴰ l []) (sym e) Permᴰ.nil;
    sorted = tt;
    below = tt;
    full = omega (arith, ap length e);
  }

  pub IsTop-zero : (items : List A) → IsTop key 0 items []
  IsTop-zero items = record {
    rest = items;
    split = Permᴰ.refl items;
    sorted = tt;
    below = tt;
    full = omega arith;
  }

-- Ranking by the key of an image.
module _ {F A B : Type 0} ⦃o : FloatOrder F⦄ (g : A → B) (key : B → F) where
  Below-map : (x : A) (ys : List A) → Below (λ a. key (g a)) x ys → Below key (g x) (map g ys)
  Below-map x [] h = tt
  Below-map x (y ∷ ys) h = (h.0, Below-map x ys h.1)

  IsSorted-map : (xs : List A) → IsSorted (λ a. key (g a)) xs → IsSorted key (map g xs)
  IsSorted-map [] h = tt
  IsSorted-map (x ∷ xs) h = (Below-map x xs h.0, IsSorted-map xs h.1)

  All-Below-map :
      (xs ys : List A)
      → All (λ x. Below (λ a. key (g a)) x ys) xs
      → All (λ x. Below key x (map g ys)) (map g xs)
  All-Below-map [] ys h = tt
  All-Below-map (x ∷ xs) ys h = (Below-map x ys h.0, All-Below-map xs ys h.1)

  pub IsTop-map :
      (k : ℕ) (items out : List A)
      → IsTop (λ a. key (g a)) k items out
      → IsTop key k (map g items) (map g out)
  IsTop-map k items out t = record {
    rest = map g t.rest;
    split = subst (Permᴰ (map g items)) (map-append g out t.rest) (Permᴰ.map g t.split);
    sorted = IsSorted-map out t.sorted;
    below = All-Below-map out t.rest t.below;
    full = omega (arith, t.full, length-map g items, length-map g out);
  }

-- A bound that the number of items meets changes nothing.
pub IsTop-min :
    {F A : Type 0} ⦃o : FloatOrder F⦄ (key : A → F) (k n : ℕ) (items out : List A)
    → length items ≤ n
    → IsTop key (min k n) items out
    → IsTop key k items out
IsTop-min key k n items out l t = record {
  rest = t.rest;
  split = t.split;
  sorted = t.sorted;
  below = t.below;
  full = omega (arith, t.full);
}
