-- ===== src/MinIdx/Positions.antt =====
-- The places below n that a test accepts.
use mathlib.Core.List.Permᴰ
use agos_memory.Base.{
  ℕ, zero, suc, ◌<◌, ◌≡◌, refl, inl, inr, Bool, true, false, List, [], ◌∷◌, Permᴰ, All, arith, ◌==◌,
  ==_iff, ◌∙◌, if◌then◌else◌, Bool-cases, subst, sym,
}

-- From the last place to the first.
abbrev pub positions : ℕ → (ℕ → Bool) → List ℕ
positions zero p = []
positions (suc n) p = if p n then n ∷ positions n p else positions n p

pub positions-ext :
    (n : ℕ) (p q : ℕ → Bool) → ((j : ℕ) → j < n → p j ≡ q j) → positions n p ≡ positions n q
positions-ext zero p q h = refl
positions-ext (suc n) p q h = ground (arith, h n, positions-ext n p q (λ j l. h j (omega arith)))

pub positions-none : (n : ℕ) (p : ℕ → Bool) → ((j : ℕ) → j < n → p j ≡ false) → positions n p ≡ []
positions-none zero p h = refl
positions-none (suc n) p h = ground (arith, h n, positions-none n p (λ j l. h j (omega arith)))

pub All-positions {κ} :
    (n : ℕ) (p : ℕ → Bool) (Q : ℕ → Type κ)
    → ((j : ℕ) → j < n → p j ≡ true → Q j)
    → All Q (positions n p)
All-positions zero p Q h = tt
All-positions (suc n) p Q h = elim (Bool-cases (p n)) [
  | inl e ↦ rw e (h n (omega arith) e, All-positions n p Q (λ j l. h j (omega arith)))
  | inr e ↦ rw e (All-positions n p Q (λ j l. h j (omega arith)))
]

-- Taking one place out.
pub positions-remove :
    (n m : ℕ) (p q : ℕ → Bool)
    → m < n
    → p m ≡ true
    → ((j : ℕ) → j < n → q j ≡ (if m == j then false else p j))
    → Permᴰ (positions n p) (m ∷ positions n q)
positions-remove zero m p q l e h = absurd (omega arith)
positions-remove (suc n) m p q l e h = elim (Bool-cases (m == n)) [
  | inl same ↦
      let mn = (==_iff m n).0 same in
      let on : p n ≡ true = subst (λ x. p x ≡ true) mn e in
      let off : q n ≡ false = h n (omega arith) ∙ rw same in
      rw (on, off)
        (subst (λ r. Permᴰ (n ∷ positions n p) (m ∷ r))
          (positions-ext n p q (λ j k. sym (h j (omega arith) ∙ unequal j k mn)))
          (Permᴰ.cons (sym mn) (Permᴰ.refl (positions n p))))
  | inr other ↦
      let less : m < n = ground arith in
      let later = positions-remove n m p q less e (λ j k. h j (omega arith)) in
      let same : q n ≡ p n = h n (omega arith) ∙ rw other in
      elim (Bool-cases (p n)) [
        | inl on ↦
            let on' : q n ≡ true = same ∙ on in
            rw (on, on') (Permᴰ.trans (Permᴰ.cons refl later) (Permᴰ.swap refl refl))
        | inr off ↦ let off' : q n ≡ false = same ∙ off in rw (off, off') later
      ]
]
  where
    unequal : (j : ℕ) → j < n → m ≡ n → (if m == j then false else p j) ≡ p j
    unequal j k mn = ground arith
