-- ===== src/Walk/Order.antt =====
-- The candidate list of a search stays in order.
use agos_memory.Base.{
  ℕ, zero, suc, ◌-◌, ◌≡◌, ◌≢◌, ◌⊎◌, inl, inr, arith, true, false, List, [], ◌∷◌, ◌==◌, ==_iff,
  Bool-cases, leb, length, get_or, set, take,
}
use agos_memory.Ranking.{FloatOrder, Below, IsSorted}
use agos_memory.Beam.{Candidate, CandidateList, candidate_list_insert, fresh}
use agos_memory.Beam.Insert.{far, insert_new-IsSorted}
use agos_memory.Beam.New.{Absent, update_duplicate-Absent, IsSorted-take}
use agos_memory.Beam.Duplicate.{candidate_list_insert-Improves}
use agos_memory.Walk.{confirm, confirm_first, Index}

module _ {F : Type 0} ⦃o : FloatOrder F⦄ where
  Absent-cases : (rowid : ℕ) (xs : List (Candidate F)) → Absent rowid xs ⊎ (Absent rowid xs → ⊥)
  Absent-cases rowid [] = inl tt
  Absent-cases rowid (x ∷ xs) = elim (Bool-cases (x.rowid == rowid)) [
    | inl e ↦ inr (λ h. h.0 ((==_iff x.rowid rowid).0 e))
    | inr e ↦ elim (Absent-cases rowid xs) [
      | inl h ↦ inl ((λ same. differ x.rowid rowid e same), h)
      | inr h ↦ inr (λ k. h k.1)
    ]
  ]
    where
      differ : (a b : ℕ) → (a == b) ≡ false → a ≢ b
      differ a b e = ground arith

  pub candidate_list_insert-IsSorted :
      (list : CandidateList F) (rowid : ℕ) (d : F)
      → IsSorted far list.items
      → IsSorted far (candidate_list_insert list rowid d).0.items
  unfolding candidate_list_insert
  candidate_list_insert-IsSorted list rowid d s = elim (Absent-cases rowid list.items) [
    | inr here ↦ (candidate_list_insert-Improves list rowid d s here).2.sorted
    | inl gone ↦
        rw (update_duplicate-Absent rowid d [] list.items gone, candidate_list_insert)
          (elim (Bool-cases (leb list.capacity (length list.items))) [
            | inr room ↦ rw room (insert_new-IsSorted rowid d list.items s)
            | inl closed ↦
                elim (Bool-cases
                  (o.le (get_or list.items (length list.items - 1) (fresh rowid d)).distance d)) [
                    | inl further ↦ rw (closed, further) s
                    | inr nearer ↦
                        rw (closed, nearer)
                          (insert_new-IsSorted rowid d (take (length list.items - 1) list.items)
                            (IsSorted-take far (length list.items - 1) list.items s))
                  ]
          ])
  ]

  -- Flags that change leave the order as it is.
  Below-visit :
      (y : Candidate F) (items : List (Candidate F)) (i : ℕ) (blank : Candidate F)
      → Below far y items
      → Below far y (set items i (record (get_or items i blank) { visited = true }))
  Below-visit y [] i blank b = tt
  Below-visit y (x ∷ items) zero blank b = b
  Below-visit y (x ∷ items) (suc i) blank b = (b.0, Below-visit y items i blank b.1)

  pub IsSorted-visit :
      (items : List (Candidate F)) (i : ℕ) (blank : Candidate F)
      → IsSorted far items
      → IsSorted far (set items i (record (get_or items i blank) { visited = true }))
  IsSorted-visit [] i blank s = tt
  IsSorted-visit (x ∷ items) zero blank s = s
  IsSorted-visit (x ∷ items) (suc i) blank s =
      (Below-visit x items i blank s.0, IsSorted-visit items i blank s.1)

module _ {F : Type 0} ⦃o : FloatOrder F⦄ (x : Index F) where
  Below-confirm :
      (y : Candidate F) (rowid : ℕ) (items : List (Candidate F))
      → Below far y items
      → Below far y (confirm x rowid items)
  unfolding confirm
  Below-confirm y rowid [] b = tt
  Below-confirm y rowid (c ∷ items) b = elim (Bool-cases (c.rowid == rowid)) [
    | inl e ↦ rw e b
    | inr e ↦ rw e (b.0, Below-confirm y rowid items b.1)
  ]

  pub IsSorted-confirm :
      (rowid : ℕ) (items : List (Candidate F))
      → IsSorted far items
      → IsSorted far (confirm x rowid items)
  unfolding confirm
  IsSorted-confirm rowid [] s = tt
  IsSorted-confirm rowid (c ∷ items) s = elim (Bool-cases (c.rowid == rowid)) [
    | inl e ↦ rw e s
    | inr e ↦ rw e (Below-confirm c rowid items s.0, IsSorted-confirm rowid items s.1)
  ]

  IsSorted-confirm_first :
      (items : List (Candidate F)) → IsSorted far items → IsSorted far (confirm_first x items)
  unfolding confirm_first
  IsSorted-confirm_first [] s = tt
  IsSorted-confirm_first (c ∷ items) s = s
