-- ===== src/Prune/Apart.antt =====
-- One round keeps what is selected apart, and what is pruned covered.
use agos_memory.Base.{
  ℕ, ◌+◌, ◌≤◌, ◌<◌, ◌≡◌, ◌≢◌, ◌⊎◌, ap, sym, ◌∙◌, subst, inl, inr, arith, Bool, true, false, not,
  ◌&&◌, List, ◌==◌, ==_iff, ltb, Bool-cases, length, length-set, set, get_or-set_self,
  get_or-set_ne, &&_parts,
}
use agos_memory.Prune.{prune_pass}
use agos_memory.Prune.Flags.{flag, trues, flag-prune_pass, length-prune_pass, trues-set}

at_or_not : (i j : ℕ) → (i ≡ j) ⊎ (i ≢ j)
at_or_not i j = elim (Bool-cases (i == j)) [
  | inl e ↦ inl ((==_iff i j).0 e)
  | inr e ↦ inr (λ h. differ i j e h)
]
  where
    differ : (i j : ℕ) → (i == j) ≡ false → i ≢ j
    differ i j e = ground arith

pub not_both : (x : Bool) → x ≡ true → x ≡ false → ⊥
not_both x e f = ground arith

module _ (flags : List Bool) (b : ℕ) where
  set_adds : (j : ℕ) → flag (set flags b true) j ≡ true → (j ≡ b) ⊎ (flag flags j ≡ true)
  set_adds j h = elim (at_or_not b j) [
    | inl e ↦ inl (sym e)
    | inr n ↦ inr (sym (get_or-set_ne flags b j true false n) ∙ h)
  ]

  set_keeps : (j : ℕ) → b < length flags → flag flags j ≡ true → flag (set flags b true) j ≡ true
  set_keeps j l h = elim (at_or_not b j) [
    | inl e ↦ subst (λ k. flag (set flags b true) k ≡ true) e (get_or-set_self flags b true false l)
    | inr n ↦ get_or-set_ne flags b j true false n ∙ h
  ]

  set_lacks :
      (j : ℕ)
      → b < length flags
      → flag (set flags b true) j ≡ false
      → (b ≢ j) × (flag flags j ≡ false)
  set_lacks j l h = elim (at_or_not b j) [
    | inl e ↦
        let on =
          subst (λ k. flag (set flags b true) k ≡ true) e (get_or-set_self flags b true false l) in
        absurd (not_both _ on h)
    | inr n ↦ (n, sym (get_or-set_ne flags b j true false n) ∙ h)
  ]

  set_drops :
      (j : ℕ)
      → b < length flags
      → flag (set flags b false) j ≡ true
      → (b ≢ j) × (flag flags j ≡ true)
  set_drops j l h = elim (at_or_not b j) [
    | inl e ↦
        let off =
          subst (λ k. flag (set flags b false) k ≡ false) e
            (get_or-set_self flags b false false l) in
        absurd (not_both _ h off)
    | inr n ↦ (n, sym (get_or-set_ne flags b j false false n) ∙ h)
  ]

-- After `count` rounds. What is active is past all that is selected and pruned by none of it; what
-- is neither has been pruned by a selected place before it.
pub record Kept (n : ℕ) (prunes : ℕ → ℕ → Bool) (active selected : List Bool) (count : ℕ)
    : Type 0 where
  pub active_size : length active ≡ n
  pub selected_size : length selected ≡ n
  pub counted : trues selected ≡ count
  pub late : (i : ℕ) → flag active i ≡ true → count ≤ i
  pub covered :
      (i : ℕ)
      → i < n
      → flag active i ≡ false
      → flag selected i ≡ false
      → (j : ℕ) × (j < i) × (flag selected j ≡ true) × (prunes j i ≡ true)
  pub before :
      (j i : ℕ) → flag selected j ≡ true → flag active i ≡ true → (j < i) × (prunes j i ≡ false)
  pub apart :
      (i j : ℕ) → i < j → flag selected i ≡ true → flag selected j ≡ true → prunes i j ≡ false

module _ (n : ℕ) (prunes : ℕ → ℕ → Bool) (active selected : List Bool) (count b : ℕ)
    (w : Kept n prunes active selected count) (l : b < n) (on : flag active b ≡ true)
    (first : (j : ℕ) → j < b → flag active j ≡ false) where
  abbrev active_now : List Bool
  active_now = prune_pass (prunes b) 0 (set active b false)

  abbrev selected_now : List Bool
  selected_now = set selected b true

  b_active : b < length active
  b_active = omega (arith, l, w.active_size)

  b_selected : b < length selected
  b_selected = omega (arith, l, w.selected_size)

  now_active : (i : ℕ) → flag active_now i ≡ (flag (set active b false) i && not (prunes b i))
  now_active i =
      let same : 0 + i ≡ i = omega arith in
      flag-prune_pass (prunes b) 0 (set active b false) i
      ∙ ap (λ k. flag (set active b false) i && not (prunes b k)) same

  past_first : (i : ℕ) → b ≢ i → flag active i ≡ true → b < i
  past_first i d e = elim (Bool-cases (ltb i b)) [
    | inl lower ↦ absurd (not_both _ e (first i (ground arith)))
    | inr upper ↦ ground arith
  ]

  -- What is still active was, comes after `b`, and is not pruned by it.
  still_active :
      (i : ℕ) → flag active_now i ≡ true → (b < i) × (flag active i ≡ true) × (prunes b i ≡ false)
  still_active i h =
      let parts =
        &&_parts (flag (set active b false) i) (not (prunes b i)) (sym (now_active i) ∙ h) in
      let was = set_drops active b i b_active parts.0 in
      (past_first i was.0 was.1, was.1, unflip (prunes b i) parts.1)
    where
      unflip : (x : Bool) → not x ≡ true → x ≡ false
      unflip x e = ground arith

  now_covered :
      (i : ℕ)
      → i < n
      → flag active_now i ≡ false
      → flag selected_now i ≡ false
      → (j : ℕ) × (j < i) × (flag selected_now j ≡ true) × (prunes j i ≡ true)
  now_covered i m off out =
      let lacks = set_lacks selected b i b_selected out in
      elim (Bool-cases (flag active i)) [
        | inr was ↦
            let c = w.covered i m was lacks.1 in
            (c.0, c.1, set_keeps selected b c.0 b_selected c.2, c.3)
        | inl was ↦
            let kept = get_or-set_ne active b i false false lacks.0 ∙ was in
            (
              b,
              past_first i lacks.0 was,
              get_or-set_self selected b true false b_selected,
              pruned _ _ (sym (now_active i) ∙ off) kept,
            )
      ]
    where
      pruned : (x y : Bool) → (x && not y) ≡ false → x ≡ true → y ≡ true
      pruned x y e f = ground arith

  now_before :
      (j i : ℕ)
      → flag selected_now j ≡ true
      → flag active_now i ≡ true
      → (j < i) × (prunes j i ≡ false)
  now_before j i s a =
      let still = still_active i a in
      elim (set_adds selected b j s) [
        | inl e ↦ subst (λ k. (k < i) × (prunes k i ≡ false)) (sym e) (still.0, still.2)
        | inr old ↦ w.before j i old still.1
      ]

  now_apart :
      (i j : ℕ)
      → i < j
      → flag selected_now i ≡ true
      → flag selected_now j ≡ true
      → prunes i j ≡ false
  now_apart i j m s t = elim (set_adds selected b j t) [
    | inl e ↦ elim (set_adds selected b i s) [
      | inl f ↦ absurd (omega (arith, e, f))
      | inr old ↦ subst (λ k. prunes i k ≡ false) (sym e) (w.before i b old on).1
    ]
    | inr old_j ↦ elim (set_adds selected b i s) [
      | inl f ↦ absurd (omega (arith, f, (w.before j b old_j on).0))
      | inr old_i ↦ w.apart i j m old_i old_j
    ]
  ]

  pub Kept-round : Kept n prunes active_now selected_now (count + 1)
  Kept-round = record {
    active_size =
        length-prune_pass (prunes b) 0 (set active b false)
        ∙ (length-set active b false ∙ w.active_size);
    selected_size = length-set selected b true ∙ w.selected_size;
    counted = omega (arith, trues-set selected b b_selected off_now, w.counted);
    late = λ i h. omega (arith, (still_active i h).0, w.late b on);
    covered = now_covered;
    before = now_before;
    apart = now_apart;
  }
    where
      off_now : flag selected b ≡ false
      off_now = elim (Bool-cases (flag selected b)) [
        | inr e ↦ e
        | inl e ↦ absurd (omega (arith, (w.before b b e on).0))
      ]
