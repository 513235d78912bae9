-- ===== src/Store/Maps.antt =====
-- Rows of a table after one of them is replaced.
use agos_memory.Base.{
  sym, ◌∙◌, subst, ℕ, ◌≡◌, ◌≢◌, refl, arith, Bool, true, false, Option, none, some, if◌then◌else◌,
  ◌==◌, inl, inr, ◌⊎◌, Bool-cases, ==_iff,
}
use mathlib.Core.Option.{some-injective, none-ne-some}
use agos_memory.Store.{update}

apart : (j k : ℕ) → (j == k) ≡ false → j ≢ k
apart j k h = ground arith

pub apart_test : (j k : ℕ) → j ≢ k → (j == k) ≡ false
apart_test j k h = ground arith

pub update_self : {A : Type 0} (rows : ℕ → A) (k : ℕ) (x : A) → update rows k x k ≡ x
update_self rows k x = rw (self k) refl
  where
    self : (k : ℕ) → (k == k) ≡ true
    self k = ground arith

pub update_other :
    {A : Type 0} (rows : ℕ → A) (k : ℕ) (x : A) (j : ℕ) → j ≢ k → update rows k x j ≡ rows j
update_other rows k x j h = rw (apart_test j k h) refl

pub update-some :
    {A : Type 0} (rows : ℕ → Option A) (k : ℕ) (x a : A) (j : ℕ)
    → update rows k (some x) j ≡ some a
    → ((j ≡ k) × (x ≡ a)) ⊎ ((j ≢ k) × (rows j ≡ some a))
update-some rows k x a j h = choose (j == k) refl h
  where
    choose :
        (b : Bool)
        → (j == k) ≡ b
        → (if b then some x else rows j) ≡ some a
        → ((j ≡ k) × (x ≡ a)) ⊎ ((j ≢ k) × (rows j ≡ some a))
    choose true e g = inl ((==_iff j k).0 e, some-injective x a g)
    choose false e g = inr (apart j k e, g)

pub update-none :
    {A : Type 0} (rows : ℕ → Option A) (k : ℕ) (a : A) (j : ℕ)
    → update rows k none j ≡ some a
    → (j ≢ k) × (rows j ≡ some a)
update-none rows k a j h = choose (j == k) refl h
  where
    choose :
        (b : Bool)
        → (j == k) ≡ b
        → (if b then none else rows j) ≡ some a
        → (j ≢ k) × (rows j ≡ some a)
    choose true e g = absurd (none-ne-some a g)
    choose false e g = (apart j k e, g)

-- The row is the one that is not there, or it is as before.
pub same_or_apart : (j k : ℕ) → (j ≡ k) ⊎ (j ≢ k)
same_or_apart j k = elim (Bool-cases (j == k)) [
  | inl e ↦ inl ((==_iff j k).0 e)
  | inr e ↦ inr (apart j k e)
]

-- Writing back the row that is there changes nothing.
pub update_same : {A : Type 0} (rows : ℕ → A) (k : ℕ) (x : A) → rows k ≡ x → update rows k x ≡ rows
update_same rows k x e = λ s j. cell j s
  where
    cell : (j : ℕ) → update rows k x j ≡ rows j
    cell j = elim (same_or_apart j k) [
      | inl same ↦ subst (λ y. update rows k x y ≡ rows y) (sym same) (update_self rows k x ∙ sym e)
      | inr d ↦ update_other rows k x j d
    ]
