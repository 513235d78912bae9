-- ===== src/Beam/Duplicate.antt =====
-- `diskann_candidate_list_insert` at a rowid that the list holds: the entry moves, none is lost.
use mathlib.Core.List.Permᴰ
use agos_memory.Base.{
  ℕ, ◌≡◌, ◌≢◌, refl, inl, inr, false, List, [], ◌∷◌, ◌++◌, Permᴰ, some, arith, if◌then◌else◌,
  Bool-cases, ◌==◌,
}
use agos_memory.Ranking.{FloatOrder, float_lt, Below, IsSorted}
use agos_memory.Ranking.Laws.{Below-trans}
use agos_memory.Beam.{
  Candidate, CandidateList, put_back, sift_back, candidate_list_insert, update_duplicate,
}
use agos_memory.Beam.Insert.{far}
use agos_memory.Beam.New.{Absent}

put_back-Permᴰ :
    {A : Type 0} (before after : List A) → Permᴰ (put_back before after) (before ++ after)
unfolding put_back
put_back-Permᴰ [] after = Permᴰ.refl after
put_back-Permᴰ (x ∷ before) after =
    Permᴰ.trans (put_back-Permᴰ before (x ∷ after)) (Permᴰ.middle x before after)

module _ {F : Type 0} ⦃o : FloatOrder F⦄ where
  IsSorted-after :
      (before after : List (Candidate F))
      → IsSorted far (put_back before after)
      → IsSorted far after
  unfolding put_back
  IsSorted-after [] after s = s
  IsSorted-after (x ∷ before) after s = (IsSorted-after before (x ∷ after) s).1

  -- A sorted tail for another that is no lower.
  swap_after :
      (before after other : List (Candidate F))
      → IsSorted far (put_back before after)
      → IsSorted far other
      → ((y : Candidate F) → Below far y after → Below far y other)
      → IsSorted far (put_back before other)
  unfolding put_back
  swap_after [] after other s t h = t
  swap_after (x ∷ before) after other s t h =
      swap_after before (x ∷ after) (x ∷ other) s (h x (IsSorted-after before (x ∷ after) s).0, t)
        (λ y b. (b.0, h y b.1))

  sift_back-Permᴰ :
      (before : List (Candidate F)) (tmp : Candidate F) (after : List (Candidate F))
      → Permᴰ (sift_back before tmp after) (tmp ∷ before ++ after)
  unfolding sift_back
  sift_back-Permᴰ [] tmp after = Permᴰ.refl (tmp ∷ after)
  sift_back-Permᴰ (x ∷ before) tmp after = elim (Bool-cases (o.le x.distance tmp.distance)) [
    | inl e ↦ rw e (
        Permᴰ.trans (put_back-Permᴰ before (x ∷ tmp ∷ after))
          (Permᴰ.trans (Permᴰ.middle x before (tmp ∷ after)) (Permᴰ.middle tmp (x ∷ before) after)))
    | inr e ↦ rw e (
        Permᴰ.trans (sift_back-Permᴰ before tmp (x ∷ after))
          (Permᴰ.cons refl (Permᴰ.middle x before after)))
  ]

  sift_back-IsSorted :
      (before : List (Candidate F)) (tmp : Candidate F) (after : List (Candidate F))
      → IsSorted far (put_back before after)
      → Below far tmp after
      → IsSorted far (sift_back before tmp after)
  unfolding sift_back put_back
  sift_back-IsSorted [] tmp after s h = (h, s)
  sift_back-IsSorted (x ∷ before) tmp after s h = elim (Bool-cases (o.le x.distance tmp.distance)) [
    | inl e ↦ rw e (
        let tail = IsSorted-after before (x ∷ after) s in
        swap_after before (x ∷ after) (x ∷ tmp ∷ after) s ((e, tail.0), (h, tail.1))
          (λ y b. (b.0, (o.le_trans _ _ _ b.0 e, b.1))))
    | inr e ↦ rw e (sift_back-IsSorted before tmp (x ∷ after) s (o.le_total _ _ e, h))
  ]

  -- An entry with the distance offered, if that is nearer.
  abbrev improve : F → Candidate F → Candidate F
  improve d x = if float_lt d x.distance then record x { distance = d } else x

  -- From `items` to `after` one entry of the rowid is improved, and the rest are the same.
  pub record Improves (rowid : ℕ) (d : F) (items after : List (Candidate F)) : Type 0 where
    pub entry : Candidate F
    pub others : List (Candidate F)
    pub found : entry.rowid ≡ rowid
    pub was : Permᴰ items (entry ∷ others)
    pub becomes : Permᴰ after (improve d entry ∷ others)
    pub sorted : IsSorted far after

  update_duplicate-Improves :
      (rowid : ℕ) (d : F) (before after : List (Candidate F))
      → IsSorted far (put_back before after)
      → ¬ Absent rowid after
      → (items : List (Candidate F)) × (update_duplicate rowid d before after ≡ some items)
        × Improves rowid d (put_back before after) items
  unfolding update_duplicate put_back
  update_duplicate-Improves rowid d before [] s h = absurd (h tt)
  update_duplicate-Improves rowid d before (x ∷ after) s h = elim (Bool-cases (x.rowid == rowid)) [
    | inr other ↦
        rw other
          (update_duplicate-Improves rowid d (x ∷ before) after s (λ a. h (differs x other, a)))
    | inl same ↦ rw same (elim (Bool-cases (o.le x.distance d)) [
      | inl e ↦ rw e (
        put_back before (x ∷ after),
        refl,
        record {
          entry = x;
          others = before ++ after;
          found = ground arith;
          was = held before x after;
          becomes = rw e (held before x after);
          sorted = s;
        },
      )
      | inr e ↦ rw e (
        sift_back before (record x { distance = d }) after,
        refl,
        record {
          entry = x;
          others = before ++ after;
          found = ground arith;
          was = held before x after;
          becomes = rw e (sift_back-Permᴰ before (record x { distance = d }) after);
          sorted =
              sift_back-IsSorted before (record x { distance = d }) after
                (swap_after before (x ∷ after) after s (IsSorted-after before (x ∷ after) s).1
                  (λ y b. b.1))
                (Below-trans far (record x { distance = d }) x after (o.le_total _ _ e)
                  (IsSorted-after before (x ∷ after) s).0);
        },
      )
    ])
  ]
    where
      differs : (x : Candidate F) → (x.rowid == rowid) ≡ false → x.rowid ≢ rowid
      differs x e = ground arith

      held :
          (before : List (Candidate F)) (x : Candidate F) (after : List (Candidate F))
          → Permᴰ (put_back before (x ∷ after)) (x ∷ before ++ after)
      held before x after =
          Permᴰ.trans (put_back-Permᴰ before (x ∷ after)) (Permᴰ.middle x before after)

  -- A sorted list that holds an entry of the rowid: the insertion returns 1, keeps the capacity and
  -- the order, and changes one entry of that rowid, to the distance offered if that is nearer.
  pub candidate_list_insert-Improves :
      (list : CandidateList F) (rowid : ℕ) (d : F)
      → IsSorted far list.items
      → ¬ Absent rowid list.items
      → ((candidate_list_insert list rowid d).1 ≡ 1)
        × ((candidate_list_insert list rowid d).0.capacity ≡ list.capacity)
        × Improves rowid d list.items (candidate_list_insert list rowid d).0.items
  unfolding candidate_list_insert put_back
  candidate_list_insert-Improves list rowid d s h =
      let found = update_duplicate-Improves rowid d [] list.items s h in
      rw (found.1, candidate_list_insert) (refl, refl, found.2)
