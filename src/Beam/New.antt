-- ===== src/Beam/New.antt =====
-- `diskann_candidate_list_insert` at a rowid that is not in the list yet.
use mathlib.Core.List.Permᴰ
use mathlib.Core.List.{append-nil}
use agos_memory.Base.{
  ℕ, zero, suc, ◌-◌, ◌≤◌, ◌<◌, ◌≡◌, refl, ap, inl, inr, true, false, List, [], ◌∷◌, ◌++◌, Permᴰ,
  arith, leb, Bool-cases, length, get_or, take, All, All-append, subst, none, length-Permᴰ,
  length-append, sym, ◌==◌, ◌≢◌, All-Permᴰ,
}
use agos_memory.Ranking.{FloatOrder, Below, IsSorted, IsTop}
use agos_memory.Beam.{
  Candidate, CandidateList, fresh, insert_new, candidate_list_insert, update_duplicate,
}
use agos_memory.Beam.Insert.{far, insert_new-IsSorted, insert_new-Permᴰ}

module _ {F A : Type 0} ⦃o : FloatOrder F⦄ (key : A → F) where
  -- The list without its last element, and that element.
  take-last :
      (m : ℕ) (xs : List A) (d : A) → length xs ≡ suc m → xs ≡ take m xs ++ get_or xs m d ∷ []
  take-last m [] d e = absurd (omega arith)
  take-last zero (x ∷ []) d e = refl
  take-last zero (x ∷ y ∷ xs) d e = absurd (omega arith)
  take-last (suc m) (x ∷ xs) d e = ap (◌∷◌ x) (take-last m xs d (omega arith))

  Below-take : (x : A) (m : ℕ) (xs : List A) → Below key x xs → Below key x (take m xs)
  Below-take x zero xs h = tt
  Below-take x (suc m) [] h = tt
  Below-take x (suc m) (y ∷ xs) h = (h.0, Below-take x m xs h.1)

  pub IsSorted-take : (m : ℕ) (xs : List A) → IsSorted key xs → IsSorted key (take m xs)
  IsSorted-take zero xs s = tt
  IsSorted-take (suc m) [] s = tt
  IsSorted-take (suc m) (x ∷ xs) s = (Below-take x m xs s.0, IsSorted-take m xs s.1)

  -- In a sorted list all that stands before the last element is below it.
  Below-last :
      (xs : List A) (z : A) → IsSorted key (xs ++ z ∷ []) → All (λ x. Below key x (z ∷ [])) xs
  Below-last [] z s = tt
  Below-last (x ∷ xs) z s = ((last xs s.0, tt), Below-last xs z s.1)
    where
      last : (ys : List A) → Below key x (ys ++ z ∷ []) → o.le (key x) (key z) ≡ true
      last [] b = b.0
      last (y ∷ ys) b = last ys b.1

module _ {F : Type 0} ⦃o : FloatOrder F⦄ where
  abbrev pub Absent : ℕ → List (Candidate F) → Type 0
  Absent rowid xs = All (λ c. c.rowid ≢ rowid) xs

  pub update_duplicate-Absent :
      (rowid : ℕ) (d : F) (before after : List (Candidate F))
      → Absent rowid after
      → update_duplicate rowid d before after ≡ none
  unfolding update_duplicate
  update_duplicate-Absent rowid d before [] h = refl
  update_duplicate-Absent rowid d before (x ∷ after) h =
      let differs : (x.rowid == rowid) ≡ false = other_rowid x h.0 in
      rw differs (update_duplicate-Absent rowid d (x ∷ before) after h.1)
    where
      other_rowid : (x : Candidate F) → x.rowid ≢ rowid → (x.rowid == rowid) ≡ false
      other_rowid x h = ground arith

  module _ (rowid : ℕ) (d : F) (xs : List (Candidate F)) (s : IsSorted far xs) where
    -- There is room.
    IsTop-room : (k : ℕ) → length xs < k → IsTop far k (fresh rowid d ∷ xs) (insert_new rowid d xs)
    IsTop-room k h = record {
      rest = [];
      split = subst (Permᴰ (fresh rowid d ∷ xs)) (sym (append-nil _)) (insert_new-Permᴰ rowid d xs);
      sorted = insert_new-IsSorted rowid d xs s;
      below = nothing_left (insert_new rowid d xs);
      full = omega (arith, length-Permᴰ (insert_new-Permᴰ rowid d xs));
    }
      where
        nothing_left : (ys : List (Candidate F)) → All (λ x. Below far x []) ys
        nothing_left [] = tt
        nothing_left (y ∷ ys) = (tt, nothing_left ys)

    module _ (m : ℕ) (e : length xs ≡ suc m) where
      abbrev last : Candidate F
      last = get_or xs m (fresh rowid d)

      halves : xs ≡ take m xs ++ last ∷ []
      halves = take-last far m xs (fresh rowid d) e

      before_last : All (λ x. Below far x (last ∷ [])) (take m xs)
      before_last = Below-last far (take m xs) last (subst (IsSorted far) halves s)

      -- It is full and the new candidate is no nearer than the last.
      IsTop-discard : o.le last.distance d ≡ true → IsTop far (suc m) (fresh rowid d ∷ xs) xs
      IsTop-discard h = record {
        rest = fresh rowid d ∷ [];
        split = Permᴰ.append_comm (fresh rowid d ∷ []) xs;
        sorted = s;
        below =
            subst (All (λ x. Below far x (fresh rowid d ∷ []))) (sym halves)
              (All-append _ (take m xs) (last ∷ []) (nearer (take m xs) before_last) ((h, tt), tt));
        full = omega (arith, e);
      }
        where
          nearer :
              (ys : List (Candidate F))
              → All (λ x. Below far x (last ∷ [])) ys
              → All (λ x. Below far x (fresh rowid d ∷ [])) ys
          nearer [] b = tt
          nearer (y ∷ ys) b = ((o.le_trans _ _ _ b.0.0 h, tt), nearer ys b.1)

      -- It is full and the last candidate gives way.
      IsTop-replace :
          o.le d last.distance ≡ true
          → IsTop far (suc m) (fresh rowid d ∷ xs) (insert_new rowid d (take m xs))
      IsTop-replace h = record {
        rest = last ∷ [];
        split =
            subst (λ l. Permᴰ (fresh rowid d ∷ l) (insert_new rowid d (take m xs) ++ last ∷ []))
              (sym halves) (Permᴰ.append_right (last ∷ []) (insert_new-Permᴰ rowid d (take m xs)));
        sorted = insert_new-IsSorted rowid d (take m xs) (IsSorted-take far m xs s);
        below = All-Permᴰ _ (insert_new-Permᴰ rowid d (take m xs)) ((h, tt), before_last);
        full = omega (
          arith,
          e,
          ap length halves,
          length-append (take m xs) (last ∷ []),
          length-Permᴰ (insert_new-Permᴰ rowid d (take m xs)),
        );
      }

  -- A list that is sorted and within its capacity, and a rowid that is not in it: afterwards the
  -- list holds the nearest of its candidates and the new one, in order, as many as the capacity
  -- allows. What gives way is the furthest.
  pub candidate_list_insert-IsTop :
      (list : CandidateList F) (rowid : ℕ) (d : F)
      → IsSorted far list.items
      → length list.items ≤ list.capacity
      → 0 < list.capacity
      → Absent rowid list.items
      → IsTop far list.capacity
          (fresh rowid d ∷ list.items)
          (candidate_list_insert list rowid d).0.items
  unfolding candidate_list_insert
  candidate_list_insert-IsTop list rowid d s l c h =
      rw (update_duplicate-Absent rowid d [] list.items h, candidate_list_insert)
        (elim (Bool-cases (leb list.capacity (length list.items))) [
          | inr room ↦ rw room (IsTop-room rowid d list.items s list.capacity (ground arith))
          | inl closed ↦
              let items_full : length list.items ≡ suc (length list.items - 1) = ground arith in
              let top : list.capacity ≡ suc (length list.items - 1) = ground arith in
              elim (Bool-cases
                (o.le (get_or list.items (length list.items - 1) (fresh rowid d)).distance d)) [
                  | inl further ↦
                      rw (closed, further)
                        (subst (λ k. IsTop far k (fresh rowid d ∷ list.items) list.items) (sym top)
                          (IsTop-discard rowid d list.items s (length list.items - 1) items_full
                            further))
                  | inr nearer ↦
                      rw (closed, nearer)
                        (subst
                          (λ k.
                            IsTop far k (fresh rowid d ∷ list.items)
                              (insert_new rowid d (take (length list.items - 1) list.items)))
                          (sym top)
                          (IsTop-replace rowid d list.items s (length list.items - 1) items_full
                            (o.le_total _ _ nearer)))
                ]
        ])
