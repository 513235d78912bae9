-- ===== src/Scanner/Span.antt =====
-- The loops that pass over a run of bytes.
use agos_memory.Base.{
  ℕ, ◌≡◌, refl, ap, inl, inr, Bool, true, false, List, [], ◌∷◌, ◌++◌, Bool-cases, All,
}
use agos_memory.Scanner.{run, past}

-- `rest` does not begin with a byte that passes the test.
abbrev pub Stops : (ℕ → Bool) → List ℕ → Type 0
Stops test [] = Unit
Stops test (c ∷ cs) = test c ≡ false

abbrev pub Passes : (ℕ → Bool) → List ℕ → Type 0
Passes test cs = All (λ c. test c ≡ true) cs

pub run-past : (test : ℕ → Bool) (cs : List ℕ) → cs ≡ run test cs ++ past test cs
unfolding run past
run-past test [] = refl
run-past test (c ∷ cs) = elim (Bool-cases (test c)) [
  | inl e ↦ rw e (ap (◌∷◌ c) (run-past test cs))
  | inr e ↦ rw e refl
]

pub run-Passes : (test : ℕ → Bool) (cs : List ℕ) → Passes test (run test cs)
unfolding run
run-Passes test [] = tt
run-Passes test (c ∷ cs) = elim (Bool-cases (test c)) [
  | inl e ↦ rw e (e, run-Passes test cs)
  | inr e ↦ rw e tt
]

pub past-Stops : (test : ℕ → Bool) (cs : List ℕ) → Stops test (past test cs)
unfolding past
past-Stops test [] = tt
past-Stops test (c ∷ cs) = elim (Bool-cases (test c)) [
  | inl e ↦ rw e (past-Stops test cs)
  | inr e ↦ rw e e
]

-- A run that stops is read whole.
pub run-append :
    (test : ℕ → Bool) (word rest : List ℕ)
    → Passes test word
    → Stops test rest
    → run test (word ++ rest) ≡ word
unfolding run
run-append test [] [] p s = refl
run-append test [] (c ∷ rest) p s = rw s refl
run-append test (c ∷ word) rest p s = rw p.0 (ap (◌∷◌ c) (run-append test word rest p.1 s))

pub past-append :
    (test : ℕ → Bool) (word rest : List ℕ)
    → Passes test word
    → Stops test rest
    → past test (word ++ rest) ≡ rest
unfolding past
past-append test [] [] p s = refl
past-append test [] (c ∷ rest) p s = rw s refl
past-append test (c ∷ word) rest p s = rw p.0 (past-append test word rest p.1 s)
