-- ===== src/Store/Outcome.antt =====
-- How a call on the tables ends, and the rules that take a sequence of calls apart.
use agos_memory.Base.{ℕ, zero, suc, ◌+◌, ◌<◌, ◌≡◌, refl, arith, Bool, true, false, subst, sym}
use agos_memory.Store.{Tables, Code, Result, ok, err, Call, resume, Faults, attempt}
use agos_memory.Store.Steps.{for_columns}

-- The call ends well and `Q` holds of the result and the tables, or a call made before the end has failed.
abbrev pub Ends : {A : Type 0} → Faults → (A → Tables → Type 0) → Result A × Tables × ℕ → Type 0
Ends faults Q (ok a, t, k) = Q a t
Ends faults Q (err c, t, k) = (n : ℕ) × (faults n ≡ true) × (n < k)

module _ (faults : Faults) where
  pub Ends-resume :
      {A B : Type 0} (R : A → Tables → Type 0) (Q : B → Tables → Type 0) (f : A → Call B)
      (r : Result A × Tables × ℕ)
      → Ends faults R r
      → ((a : A) (t : Tables) (k : ℕ) → R a t → Ends faults Q (f a t k))
      → Ends faults Q (resume f r)
  Ends-resume R Q f (ok a, t, k) h next = next a t k h
  Ends-resume R Q f (err c, t, k) h next = h

  -- A call that can fail, first in a sequence.
  pub Ends-attempt :
      {B : Type 0} (Q : B → Tables → Type 0) (f : Unit {0} → Call B) (c : Code) (t : Tables) (k : ℕ)
      → Ends faults Q (f tt t (k + 1))
      → Ends faults Q (resume f (attempt faults c t k))
  Ends-attempt Q f c t k h = choose (faults k) refl
    where
      choose : (b : Bool) → faults k ≡ b → Ends faults Q (resume f (attempt faults c t k))
      choose true e = rw e (k, e, omega arith)
      choose false e = rw e h

  -- The last of a sequence.
  pub Ends-attempt_last :
      (Q : Unit {0} → Tables → Type 0) (c : Code) (t : Tables) (k : ℕ)
      → Q tt t
      → Ends faults Q (attempt faults c t k)
  Ends-attempt_last Q c t k h = choose (faults k) refl
    where
      choose : (b : Bool) → faults k ≡ b → Ends faults Q (attempt faults c t k)
      choose true e = rw e (k, e, omega arith)
      choose false e = rw e h

  -- What the round for `i` takes on to `i + 1`, the loop takes from the first to the last.
  pub Ends-for_columns :
      (I : ℕ → Tables → Type 0) (body : ℕ → Call (Unit {0})) (n : ℕ)
      → ((i : ℕ) (t : Tables) (k : ℕ)
          → i < n
          → I i t
          → Ends faults (λ _ t'. I (i + 1) t') (body i t k))
      → (left i : ℕ) (t : Tables) (k : ℕ) → i + left ≡ n
      → I i t
      → Ends faults (λ _ t'. I n t') (for_columns body left i t k)
  unfolding for_columns
  Ends-for_columns I body n round zero i t k e h =
      let done : i ≡ n = omega arith in subst (λ m. I m t) done h
  Ends-for_columns I body n round (suc left) i t k e h =
      Ends-resume (λ _ t'. I (i + 1) t') (λ _ t'. I n t') (λ _. for_columns body left (i + 1))
        (body i t k) (round i t k (omega arith) h)
        (λ _ t' k' h'. Ends-for_columns I body n round left (i + 1) t' k' (omega arith) h')

  -- A call with known tables after it, first in a sequence.
  pub Ends-then :
      {A B : Type 0} (t' : Tables) (Q : B → Tables → Type 0) (f : A → Call B)
      (r : Result A × Tables × ℕ)
      → Ends faults (λ _ u. u ≡ t') r
      → ((a : A) (k : ℕ) → Ends faults Q (f a t' k))
      → Ends faults Q (resume f r)
  Ends-then t' Q f (ok a, u, k) h next = subst (λ v. Ends faults Q (f a v k)) (sym h) (next a k)
  Ends-then t' Q f (err c, u, k) h next = h

  -- The same with a known result.
  pub Ends-gives :
      {A B : Type 0} (a : A) (t' : Tables) (Q : B → Tables → Type 0) (f : A → Call B)
      (r : Result A × Tables × ℕ)
      → Ends faults (λ b u. (b ≡ a) × (u ≡ t')) r
      → ((k : ℕ) → Ends faults Q (f a t' k))
      → Ends faults Q (resume f r)
  Ends-gives a t' Q f (ok b, u, k) h next =
      subst (λ v. Ends faults Q (f v u k)) (sym h.0)
        (subst (λ v. Ends faults Q (f a v k)) (sym h.1) (next k))
  Ends-gives a t' Q f (err c, u, k) h next = h

  pub Ends-imp :
      {A : Type 0} (R Q : A → Tables → Type 0) (r : Result A × Tables × ℕ)
      → ((a : A) (t : Tables) → R a t → Q a t)
      → Ends faults R r
      → Ends faults Q r
  Ends-imp R Q (ok a, t, k) f h = f a t h
  Ends-imp R Q (err c, t, k) f h = h

-- Without failures the call ends well.
pub Ends-quiet :
    {A : Type 0} (Q : A → Tables → Type 0) (r : Result A × Tables × ℕ)
    → Ends (λ _. false) Q r
    → (a : A) × (r.0 ≡ ok a) × Q a r.1
Ends-quiet Q (ok a, t, k) h = (a, refl, h)
Ends-quiet Q (err c, t, k) (n, e, l) = ground (arith, e)
