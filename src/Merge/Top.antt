-- ===== src/Merge/Top.antt =====
-- Merging the nearest of two collections gives the nearest of both.
use mathlib.Core.List.Permᴰ
use mathlib.Core.List.{append_assoc}
use agos_memory.Base.{
  ℕ, zero, suc, ◌+◌, subst, sym, List, [], ◌∷◌, ◌++◌, ◌≡◌, refl, inl, inr, Permᴰ, All, All-append,
  All-append_left, All-append_right, All-Permᴰ, map, length, length-map, length-append, min, arith,
  Bool-cases, if◌then◌else◌,
}
use agos_memory.Ranking.{FloatOrder, Hit, Below, IsSorted, IsTop}
use agos_memory.Ranking.Laws.{
  Below-trans, Below-IsSorted, Covered, Covered-empty, Covered-step, Covered-keep, Covered-min,
  regroup,
}
use agos_memory.Merge.{hit_at, merge_sorted_lists}

module _ {F R : Type 0} ⦃o : FloatOrder F⦄ (b : ℕ → F) (b_rowids : ℕ → R) where
  abbrev far : Hit F R → F
  far h = h.distance

  abbrev hits : List ℕ → List (Hit F R)
  hits js = map (hit_at b b_rowids) js

  abbrev merge : ℕ → List (Hit F R) → List ℕ → List (Hit F R)
  merge n xs js = merge_sorted_lists b b_rowids n xs js

  -- What the merge leaves behind.
  unread : ℕ → List (Hit F R) → List ℕ → List (Hit F R)
  unread zero xs js = xs ++ hits js
  unread (suc n) [] [] = []
  unread (suc n) [] (j ∷ js) = unread n [] js
  unread (suc n) (x ∷ xs) [] = unread n xs []
  unread (suc n) (x ∷ xs) (j ∷ js) =
      let from_a = unread n xs (j ∷ js) in
      let from_b = unread n (x ∷ xs) js in if o.le x.distance (b j) then from_a else from_b

  split :
      (n : ℕ) (xs : List (Hit F R)) (js : List ℕ)
      → Permᴰ (xs ++ hits js) (merge n xs js ++ unread n xs js)
  unfolding merge_sorted_lists unread
  split zero xs js = Permᴰ.refl _
  split (suc n) [] [] = Permᴰ.nil
  split (suc n) [] (j ∷ js) = Permᴰ.cons refl (split n [] js)
  split (suc n) (x ∷ xs) [] = Permᴰ.cons refl (split n xs [])
  split (suc n) (x ∷ xs) (j ∷ js) = elim (Bool-cases (o.le x.distance (b j))) [
    | inl e ↦ rw e (Permᴰ.cons refl (split n xs (j ∷ js)))
    | inr e ↦
        rw e
          (Permᴰ.trans (Permᴰ.middle _ (x ∷ xs) (hits js)) (Permᴰ.cons refl (split n (x ∷ xs) js)))
  ]

  length-merge :
      (n : ℕ) (xs : List (Hit F R)) (js : List ℕ)
      → length (merge n xs js) ≡ min n (length xs + length js)
  unfolding merge_sorted_lists
  length-merge zero xs js = omega arith
  length-merge (suc n) [] [] = omega arith
  length-merge (suc n) [] (j ∷ js) = omega (arith, length-merge n [] js)
  length-merge (suc n) (x ∷ xs) [] = omega (arith, length-merge n xs [])
  length-merge (suc n) (x ∷ xs) (j ∷ js) =
      ground (arith, length-merge n xs (j ∷ js), length-merge n (x ∷ xs) js)

  Below-merge :
      (h : Hit F R) (n : ℕ) (xs : List (Hit F R)) (js : List ℕ)
      → Below far h xs
      → Below far h (hits js)
      → Below far h (merge n xs js) × Below far h (unread n xs js)
  Below-merge h n xs js hx hj =
      let all = All-Permᴰ _ (split n xs js) (All-append _ xs (hits js) hx hj) in
      (
        All-append_left _ (merge n xs js) (unread n xs js) all,
        All-append_right _ (merge n xs js) (unread n xs js) all,
      )

  module _ (rest_a rest_b : List (Hit F R)) where
    -- The merge is sorted, and below all that is left anywhere.
    abbrev IsNearest : List (Hit F R) → List (Hit F R) → Type 0
    IsNearest out left = IsSorted far out × All (λ x. Below far x (left ++ (rest_a ++ rest_b))) out

    -- One more hit in front, when it is below everything still to come.
    IsNearest-cons :
        (h : Hit F R) (n : ℕ) (xs : List (Hit F R)) (js : List ℕ)
        → Below far h xs
        → Below far h (hits js)
        → Below far h rest_a
        → Below far h rest_b
        → IsNearest (merge n xs js) (unread n xs js)
        → IsNearest (h ∷ merge n xs js) (unread n xs js)
    IsNearest-cons h n xs js hx hj ha hb later =
        let (out, left) = Below-merge h n xs js hx hj in
        (
          (out, later.0),
          (All-append _ (unread n xs js) _ left (All-append _ rest_a rest_b ha hb), later.1),
        )

    nearest :
        (n : ℕ) (xs : List (Hit F R)) (js : List ℕ)
        → IsSorted far xs
        → IsSorted far (hits js)
        → All (λ x. Below far x rest_a) xs
        → All (λ x. Below far x rest_b) (hits js)
        → Covered n (length xs) rest_a
        → Covered n (length js) rest_b
        → IsNearest (merge n xs js) (unread n xs js)
    unfolding merge_sorted_lists unread
    nearest zero xs js sx sj ha hb ca cb = (tt, tt)
    nearest (suc n) [] [] sx sj ha hb ca cb = (tt, tt)
    nearest (suc n) [] (j ∷ js) sx sj ha hb ca cb =
        IsNearest-cons (hit_at b b_rowids j) n [] js tt sj.0
          (subst (Below far (hit_at b b_rowids j)) (sym (Covered-empty n rest_a ca)) tt) hb.0
          (nearest n [] js tt sj.1 tt hb.1 (Covered-keep n 0 rest_a ca)
            (Covered-step n _ rest_b cb))
    nearest (suc n) (x ∷ xs) [] sx sj ha hb ca cb =
        IsNearest-cons x n xs [] sx.0 tt ha.0
          (subst (Below far x) (sym (Covered-empty n rest_b cb)) tt)
          (nearest n xs [] sx.1 tt ha.1 tt (Covered-step n _ rest_a ca)
            (Covered-keep n 0 rest_b cb))
    nearest (suc n) (x ∷ xs) (j ∷ js) sx sj ha hb ca cb =
        elim (Bool-cases (o.le x.distance (b j))) [
          | inl e ↦ rw e (
              IsNearest-cons x n xs (j ∷ js) sx.0
                (Below-IsSorted far x (hit_at b b_rowids j) (hits js) e sj) ha.0
                (Below-trans far x (hit_at b b_rowids j) rest_b e hb.0)
                (nearest n xs (j ∷ js) sx.1 sj ha.1 hb (Covered-step n _ rest_a ca)
                  (Covered-keep n _ rest_b cb)))
          | inr e ↦
              let e' = o.le_total x.distance (b j) e in
              rw e (
                IsNearest-cons (hit_at b b_rowids j) n (x ∷ xs) js
                  (Below-IsSorted far (hit_at b b_rowids j) x xs e' sx) sj.0
                  (Below-trans far (hit_at b b_rowids j) x rest_a e' ha.0) hb.0
                  (nearest n (x ∷ xs) js sx sj.1 ha hb.1 (Covered-keep n _ rest_a ca)
                    (Covered-step n _ rest_b cb)))
        ]

  -- If `a` holds the k nearest of `xs`, and the places `js` the k nearest of `ys`, the merge holds
  -- the k nearest of both together.
  pub merge_sorted_lists-IsTop :
      (k : ℕ) (xs ys a : List (Hit F R)) (js : List ℕ)
      → IsTop far k xs a
      → IsTop far k ys (hits js)
      → IsTop far k (xs ++ ys) (merge_sorted_lists b b_rowids k a js)
  merge_sorted_lists-IsTop k xs ys a js p q =
      let ca = Covered-min k xs a p.rest p.split p.full in
      let cb =
        subst (λ l. Covered k l q.rest) (length-map (hit_at b b_rowids) js)
          (Covered-min k ys (hits js) q.rest q.split q.full) in
      let near = nearest p.rest q.rest k a js p.sorted q.sorted p.below q.below ca cb in
      record {
        rest = unread k a js ++ (p.rest ++ q.rest);
        split = regrouped;
        sorted = near.0;
        below = near.1;
        full = omega (
          arith,
          length-merge k a js,
          length-map (hit_at b b_rowids) js,
          p.full,
          q.full,
          length-append xs ys,
        );
      }
    where
      regrouped : Permᴰ (xs ++ ys) (merge k a js ++ (unread k a js ++ (p.rest ++ q.rest)))
      regrouped = Permᴰ.trans (Permᴰ.append_right ys p.split) (
          Permᴰ.trans (Permᴰ.append_left (a ++ p.rest) q.split) (
            Permᴰ.trans (regroup a p.rest (hits js) q.rest) (
              subst (Permᴰ ((a ++ hits js) ++ (p.rest ++ q.rest)))
                (append_assoc (merge k a js) (unread k a js) (p.rest ++ q.rest))
                (Permᴰ.append_right (p.rest ++ q.rest) (split k a js)))))
