-- ===== src/Prune/Flags.antt =====
-- The two loops of a round, flag by flag.
use agos_memory.Base.{
  ℕ, zero, suc, ◌+◌, ◌<◌, ◌≡◌, refl, ap, arith, Bool, true, false, not, ◌&&◌, List, [], ◌∷◌, Option,
  none, some, if◌then◌else◌, length, get_or, set,
}
use agos_memory.Prune.{first_active, prune_pass}

abbrev pub flag : List Bool → ℕ → Bool
flag flags i = get_or flags i false

abbrev pub trues : List Bool → ℕ
trues [] = 0
trues (b ∷ flags) = (if b then 1 else 0) + trues flags

-- The first active place, for the places counted from `i`.
abbrev pub IsFirst : ℕ → List Bool → Option ℕ → Type 0
IsFirst i active none = (j : ℕ) → flag active j ≡ false
IsFirst i active (some best) =
    (k : ℕ) × (best ≡ i + k)
    × (k < length active)
    × (flag active k ≡ true)
    × ((j : ℕ) → j < k → flag active j ≡ false)

IsFirst-cons :
    (i : ℕ) (active : List Bool) (r : Option ℕ)
    → IsFirst (i + 1) active r
    → IsFirst i (false ∷ active) r
IsFirst-cons i active none h = λ j. go j
  where
    go : (j : ℕ) → flag (false ∷ active) j ≡ false
    go zero = refl
    go (suc j) = h j
IsFirst-cons i active (some best) h =
    (suc h.0, omega (arith, h.1), omega (arith, h.2), h.3, λ j l. go j l)
  where
    go : (j : ℕ) → j < suc h.0 → flag (false ∷ active) j ≡ false
    go zero l = refl
    go (suc j) l = h.4 j (omega arith)

pub first_active-IsFirst : (i : ℕ) (active : List Bool) → IsFirst i active (first_active i active)
unfolding first_active
first_active-IsFirst i [] = λ j. refl
first_active-IsFirst i (true ∷ active) =
    (0, omega arith, omega arith, refl, λ j l. absurd (omega arith))
first_active-IsFirst i (false ∷ active) =
    IsFirst-cons i active (first_active (i + 1) active) (first_active-IsFirst (i + 1) active)

pub flag-prune_pass :
    (prunes : ℕ → Bool) (i : ℕ) (active : List Bool) (j : ℕ)
    → flag (prune_pass prunes i active) j ≡ (flag active j && not (prunes (i + j)))
unfolding prune_pass
flag-prune_pass prunes i [] j = refl
flag-prune_pass prunes i (a ∷ active) zero =
    let same : i + 0 ≡ i = omega arith in rw same (decide a (prunes i))
  where
    decide : (a p : Bool) → (if not a then a else (if p then false else a)) ≡ (a && not p)
    decide a p = ground arith
flag-prune_pass prunes i (a ∷ active) (suc j) =
    let moved : i + suc j ≡ i + 1 + j = omega arith in
    rw moved (flag-prune_pass prunes (i + 1) active j)

pub length-prune_pass :
    (prunes : ℕ → Bool) (i : ℕ) (active : List Bool)
    → length (prune_pass prunes i active) ≡ length active
unfolding prune_pass
length-prune_pass prunes i [] = refl
length-prune_pass prunes i (a ∷ active) = ap suc (length-prune_pass prunes (i + 1) active)

pub trues-set :
    (flags : List Bool) (i : ℕ)
    → i < length flags
    → flag flags i ≡ false
    → trues (set flags i true) ≡ trues flags + 1
trues-set [] i l e = absurd (omega arith)
trues-set (b ∷ flags) zero l e = ground (arith, e)
trues-set (b ∷ flags) (suc i) l e = omega (arith, trues-set flags i (omega arith) e)
