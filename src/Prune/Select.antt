-- ===== src/Prune/Select.antt =====
-- What `diskann_prune_select` selects.
use agos_memory.Base.{
  ℕ, zero, suc, ◌+◌, ◌≤◌, ◌<◌, ◌≡◌, ◌⊎◌, refl, sym, subst, inl, inr, arith, Bool, true, false, List,
  Option, none, some, Bool-cases, ltb, ◌==◌, ==_iff, [], length, set, replicate, length-replicate,
  get_or-replicate,
}
use agos_memory.Ranking.{FloatOrder}
use agos_memory.Prune.{first_active, prune_pass, prune_rounds, prune_test, diskann_prune_select}
use agos_memory.Prune.Flags.{flag, trues, IsFirst, first_active-IsFirst}
use agos_memory.Prune.Apart.{Kept, Kept-round, not_both}

-- A selection of at most `k` of the places below `n`: no selected place prunes a later selected one,
-- and unless there are `k`, each place left out is pruned by a selected one before it.
pub record IsSelection (n k : ℕ) (prunes : ℕ → ℕ → Bool) (selected : List Bool) (count : ℕ)
    : Type 0 where
  pub size : length selected ≡ n
  pub counted : trues selected ≡ count
  pub bounded : count ≤ k
  pub apart :
      (i j : ℕ) → i < j → flag selected i ≡ true → flag selected j ≡ true → prunes i j ≡ false
  pub covered :
      (count ≡ k)
      ⊎ ((i : ℕ)
          → i < n
          → flag selected i ≡ false
          → (j : ℕ) × (j < i) × (flag selected j ≡ true) × (prunes j i ≡ true))

module _ (n k : ℕ) (prunes : ℕ → ℕ → Bool) where
  full-IsSelection :
      (active selected : List Bool) (count : ℕ)
      → Kept n prunes active selected count
      → count ≤ k
      → k ≤ count
      → IsSelection n k prunes selected count
  full-IsSelection active selected count w h f = record {
    size = w.selected_size;
    counted = w.counted;
    bounded = h;
    apart = w.apart;
    covered = inl (omega arith);
  }

  done-IsSelection :
      (active selected : List Bool) (count : ℕ)
      → Kept n prunes active selected count
      → count ≤ k
      → ((i : ℕ) → i < n → flag active i ≡ false)
      → IsSelection n k prunes selected count
  done-IsSelection active selected count w h f = record {
    size = w.selected_size;
    counted = w.counted;
    bounded = h;
    apart = w.apart;
    covered = inr (λ i l e. w.covered i l (f i l) e);
  }

  prune_rounds-IsSelection :
      (left : ℕ) (active selected : List Bool) (count : ℕ)
      → Kept n prunes active selected count
      → count ≤ k
      → count + left ≡ n
      → IsSelection n k prunes
          (prune_rounds left k prunes active selected count).0
          (prune_rounds left k prunes active selected count).1
  unfolding prune_rounds
  prune_rounds-IsSelection zero active selected count w h e =
      done-IsSelection active selected count w h (λ i l. never i l)
    where
      never : (i : ℕ) → i < n → flag active i ≡ false
      never i l = elim (Bool-cases (flag active i)) [
        | inr off ↦ off
        | inl on ↦ absurd (omega (arith, w.late i on, e))
      ]
  prune_rounds-IsSelection (suc left) active selected count w h e =
      elim (Bool-cases (ltb count k)) [
        | inr full ↦
            rw (full, prune_rounds) (full-IsSelection active selected count w h (ground arith))
        | inl room ↦
            rw (room, prune_rounds)
              (step (first_active 0 active) (first_active-IsFirst 0 active) (λ active selected v.
                prune_rounds-IsSelection left active selected (count + 1) v (ground arith)
                  (omega arith)))
      ]
    where
      step :
          (r : Option ℕ)
          → IsFirst 0 active r
          → ((a s : List Bool)
              → Kept n prunes a s (count + 1)
              → IsSelection n k prunes
                  (prune_rounds left k prunes a s (count + 1)).0
                  (prune_rounds left k prunes a s (count + 1)).1)
          → (let out : List Bool × ℕ = elim r [
            | none ↦ (selected, count)
            | some best ↦
                prune_rounds left k prunes
                  (prune_pass (prunes best) 0 (set active best false))
                  (set selected best true)
                  (count + 1)
          ] in
              IsSelection n k prunes out.0 out.1)
      step none f next = done-IsSelection active selected count w h (λ i l. f i)
      step (some best) f next =
          let here : best ≡ f.0 = omega (arith, f.1) in
          next _ _ (
            Kept-round n prunes active selected count best w
              (omega (arith, here, f.2, w.active_size))
              (subst (λ b. flag active b ≡ true) (sym here) f.3)
              (λ j l. f.4 j (omega (arith, here))))

  Kept-start : Kept n prunes (replicate n true) (replicate n false) 0
  Kept-start = record {
    active_size = length-replicate n true;
    selected_size = length-replicate n false;
    counted = nothing n;
    late = λ i h. omega arith;
    covered = λ i l off out. absurd (not_both _ (get_or-replicate n i true false l) off);
    before = λ j i s a. absurd (not_both _ s (off n j));
    apart = λ i j l s t. absurd (not_both _ s (off n i));
  }
    where
      nothing : (m : ℕ) → trues (replicate m false) ≡ 0
      nothing zero = refl
      nothing (suc m) = omega (arith, nothing m)

      off : (m j : ℕ) → flag (replicate m false) j ≡ false
      off zero j = refl
      off (suc m) zero = refl
      off (suc m) (suc j) = off m j

-- When the memory is there, at most `k` places are selected, none of which prunes a later one that is
-- selected; unless there are `k`, each place left out is pruned by a selected one before it. The
-- distances and the comparison are arbitrary.
pub diskann_prune_select-IsSelection :
    {F : Type 0} ⦃o : FloatOrder F⦄ (scale : F → F) (inter p : ℕ → F) (n k : ℕ)
    → (selected : List Bool) × (count : ℕ) × (diskann_prune_select true scale inter p n k
        ≡ some (selected, count))
      × IsSelection n k (prune_test scale inter p n) selected count
unfolding diskann_prune_select
diskann_prune_select-IsSelection scale inter p n k = elim (Bool-cases (n == 0)) [
  | inr some_places ↦ rw some_places (
    _,
    _,
    refl,
    prune_rounds-IsSelection n k _ n _ _ 0 (Kept-start n k _) (omega arith) (omega arith),
  )
  | inl no_place ↦ rw no_place ([], 0, refl, empty n ((==_iff n 0).0 no_place))
]
  where
    empty : (n : ℕ) → n ≡ 0 → IsSelection n k (prune_test scale inter p n) [] 0
    empty n e = record {
      size = sym e;
      counted = refl;
      bounded = omega arith;
      apart = λ i j l s t. absurd (not_both _ s refl);
      covered = inr (λ i l off. absurd (omega (arith, e)));
    }
