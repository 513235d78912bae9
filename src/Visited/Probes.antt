-- ===== src/Visited/Probes.antt =====
-- What the two loops of the visited set do along one chain of probes.
use agos_memory.Base.{
  ℕ, zero, suc, ◌+◌, ◌<◌, ◌≤◌, ◌≡◌, ◌≢◌, ◌⊎◌, refl, inl, inr, ap, sym, ◌∙◌, bit_and, Bool, true,
  false, List, [], ◌∷◌, arith, Bool-cases, ◌==◌, ==_iff, if◌then◌else◌, length, get_or, set,
  get_or-set_self, get_or-set_ne, subst,
}
use agos_memory.Visited.{VisitedSet, contains_loop, insert_loop}

-- A write to a free slot leaves the others as they are.
abbrev pub Keeps : List ℕ → List ℕ → Type 0
Keeps slots after = (j : ℕ) → get_or slots j 0 ≢ 0 → get_or after j 0 ≡ get_or slots j 0

abbrev pub Holds : List ℕ → ℕ → Type 0
Holds slots rowid = (j : ℕ) × (get_or slots j 0 ≡ rowid)

-- Every probe from the `i`-th on finds a slot that is taken.
abbrev pub AllTaken : List ℕ → ℕ → ℕ → ℕ → ℕ → Type 0
AllTaken slots mask idx i left =
    (j : ℕ) → i ≤ j → j < i + left → get_or slots (bit_and (idx + j) mask) 0 ≢ 0

Keeps-set : (slots : List ℕ) (j v : ℕ) → get_or slots j 0 ≡ 0 → Keeps slots (set slots j v)
Keeps-set slots j v e i h =
    get_or-set_ne slots j i v 0 (λ same. h (subst (λ k. get_or slots k 0 ≡ 0) same e))

Holds-set :
    (slots : List ℕ) (j v rowid : ℕ) → Holds (set slots j v) rowid → (rowid ≡ v) ⊎ Holds slots rowid
Holds-set slots j v rowid h = elim (Bool-cases (j == h.0)) [
  | inr other ↦ inr (h.0, sym (get_or-set_ne slots j h.0 v 0 (differs j h.0 other)) ∙ h.1)
  | inl same ↦ at_place j v h.0 slots ((==_iff j h.0).0 same) h.1
]
  where
    differs : (a b : ℕ) → (a == b) ≡ false → a ≢ b
    differs a b e = ground arith

    at_place :
        (j v i : ℕ) (slots : List ℕ)
        → j ≡ i
        → get_or (set slots j v) i 0 ≡ rowid
        → (rowid ≡ v) ⊎ Holds slots rowid
    at_place zero v i [] same h = inr (i, h)
    at_place (suc j) v i [] same h = inr (i, h)
    at_place zero v zero (x ∷ slots) same h = inl (sym h)
    at_place zero v (suc i) (x ∷ slots) same h = absurd (omega arith)
    at_place (suc j) v zero (x ∷ slots) same h = absurd (omega arith)
    at_place (suc j) v (suc i) (x ∷ slots) same h = elim (at_place j v i slots (omega arith) h) [
      | inl e ↦ inl e
      | inr k ↦ inr (suc k.0, k.1)
    ]

-- A rowid that is found stays found.
pub contains_loop-Keeps :
    (slots after : List ℕ) (mask idx rowid left i : ℕ)
    → Keeps slots after
    → contains_loop slots mask idx rowid left i ≡ true
    → contains_loop after mask idx rowid left i ≡ true
unfolding contains_loop
contains_loop-Keeps slots after mask idx rowid zero i k h = absurd (ground arith)
contains_loop-Keeps slots after mask idx rowid (suc left) i k h =
    step (get_or slots (bit_and (idx + i) mask) 0) (get_or after (bit_and (idx + i) mask) 0)
      (contains_loop slots mask idx rowid left (i + 1))
      (contains_loop after mask idx rowid left (i + 1)) (k (bit_and (idx + i) mask))
      (contains_loop-Keeps slots after mask idx rowid left (i + 1) k) h
  where
    step :
        (x y : ℕ) (before now : Bool)
        → (x ≢ 0 → y ≡ x)
        → (before ≡ true → now ≡ true)
        → (if x == 0 then false else (if x == rowid then true else before)) ≡ true
        → (if y == 0 then false else (if y == rowid then true else now)) ≡ true
    step x y before now e f h = ground (arith, e, f)

pub contains_loop-Holds :
    (slots : List ℕ) (mask idx rowid left i : ℕ)
    → contains_loop slots mask idx rowid left i ≡ true
    → Holds slots rowid
unfolding contains_loop
contains_loop-Holds slots mask idx rowid zero i h = absurd (ground arith)
contains_loop-Holds slots mask idx rowid (suc left) i h =
    elim (Bool-cases (get_or slots (bit_and (idx + i) mask) 0 == rowid)) [
      | inl e ↦ (bit_and (idx + i) mask, (==_iff _ rowid).0 e)
      | inr e ↦ contains_loop-Holds slots mask idx rowid left (i + 1) (ground arith)
    ]

-- What an insertion does to the set: nothing, or it fills one free slot and counts it.
pub data Outcome (visited : VisitedSet) (rowid : ℕ) : VisitedSet → ℕ → Type 0 where
  same : Outcome visited rowid visited 0
  fills :
      (j : ℕ)
      → j < length visited.slots
      → get_or visited.slots j 0 ≡ 0
      → Outcome visited rowid
          (record visited { slots = set visited.slots j rowid; count = visited.count + 1 })
          1

pub insert_loop-Outcome :
    (visited : VisitedSet) (mask idx rowid left i : ℕ)
    → ((x : ℕ) → bit_and x mask < length visited.slots)
    → Outcome visited rowid
        (insert_loop visited mask idx rowid left i).0
        (insert_loop visited mask idx rowid left i).1
unfolding insert_loop
insert_loop-Outcome visited mask idx rowid zero i b = same
insert_loop-Outcome visited mask idx rowid (suc left) i b =
    elim (Bool-cases (get_or visited.slots (bit_and (idx + i) mask) 0 == 0)) [
      | inl free ↦ rw free (fills (bit_and (idx + i) mask) (b (idx + i)) ((==_iff _ 0).0 free))
      | inr taken ↦ elim (Bool-cases (get_or visited.slots (bit_and (idx + i) mask) 0 == rowid)) [
        | inl found ↦ rw (taken, found) same
        | inr other ↦ rw (taken, other) (insert_loop-Outcome visited mask idx rowid left (i + 1) b)
      ]
    ]

pub Outcome-Keeps :
    (visited after : VisitedSet) (rowid rc : ℕ)
    → Outcome visited rowid after rc
    → Keeps visited.slots after.slots
Outcome-Keeps visited after rowid rc same j h = refl
Outcome-Keeps visited after rowid rc (fills p l free) j h = Keeps-set visited.slots p rowid free j h

pub Outcome-Holds :
    (visited after : VisitedSet) (rowid rc other : ℕ)
    → Outcome visited rowid after rc
    → Holds after.slots other
    → (other ≡ rowid) ⊎ Holds visited.slots other
Outcome-Holds visited after rowid rc other same h = inr h
Outcome-Holds visited after rowid rc other (fills p l free) h =
    Holds-set visited.slots p rowid other h

-- A probe that finds another rowid.
insert_loop_skip :
    (visited : VisitedSet) (mask idx rowid left i : ℕ)
    → (get_or visited.slots (bit_and (idx + i) mask) 0 == 0) ≡ false
    → (get_or visited.slots (bit_and (idx + i) mask) 0 == rowid) ≡ false
    → insert_loop visited mask idx rowid (suc left) i
      ≡ insert_loop visited mask idx rowid left (i + 1)
unfolding insert_loop
insert_loop_skip visited mask idx rowid left i taken other = rw (taken, other) refl

contains_loop_skip :
    (slots : List ℕ) (mask idx rowid left i : ℕ)
    → (get_or slots (bit_and (idx + i) mask) 0 == 0) ≡ false
    → (get_or slots (bit_and (idx + i) mask) 0 == rowid) ≡ false
    → contains_loop slots mask idx rowid (suc left) i
      ≡ contains_loop slots mask idx rowid left (i + 1)
unfolding contains_loop
contains_loop_skip slots mask idx rowid left i taken other = rw (taken, other) refl

-- Unless all the probes find taken slots, the rowid is found once it is inserted.
pub contains_loop-insert_loop :
    (visited : VisitedSet) (mask idx rowid left i : ℕ)
    → rowid ≢ 0
    → ((x : ℕ) → bit_and x mask < length visited.slots)
    → (AllTaken visited.slots mask idx i left → ⊥)
    → contains_loop (insert_loop visited mask idx rowid left i).0.slots mask idx rowid left i ≡ true
unfolding contains_loop insert_loop
contains_loop-insert_loop visited mask idx rowid zero i z b room =
    absurd (room (λ j l h. absurd (omega arith)))
contains_loop-insert_loop visited mask idx rowid (suc left) i z b room =
    elim (Bool-cases (get_or visited.slots (bit_and (idx + i) mask) 0 == 0)) [
      | inl free ↦
          rw (free, get_or-set_self visited.slots (bit_and (idx + i) mask) rowid 0 (b (idx + i)))
            (found_first rowid _ z)
      | inr taken ↦ elim (Bool-cases (get_or visited.slots (bit_and (idx + i) mask) 0 == rowid)) [
        | inl found ↦ rw (taken, found, taken, found) refl
        | inr other ↦
            let kept =
              Outcome-Keeps visited _ rowid _
                (insert_loop-Outcome visited mask idx rowid left (i + 1) b) (bit_and (idx + i) mask)
                (λ e. differ _ taken e) in
            subst (λ r. contains_loop r.0.slots mask idx rowid (suc left) i ≡ true)
              (sym (insert_loop_skip visited mask idx rowid left i taken other))
              (contains_loop_skip (insert_loop visited mask idx rowid left (i + 1)).0.slots mask idx
                  rowid left i (ap (λ x. x == 0) kept ∙ taken) (ap (λ x. x == rowid) kept ∙ other)
                ∙ contains_loop-insert_loop visited mask idx rowid left (i + 1) z b
                    (λ later. room (first_taken taken later)))
      ]
    ]
  where
    found_first :
        (rowid : ℕ) (later : Bool)
        → rowid ≢ 0
        → (if rowid == 0 then false else (if rowid == rowid then true else later)) ≡ true
    found_first rowid later z = ground arith

    differ : (x : ℕ) → (x == 0) ≡ false → x ≢ 0
    differ x e = ground arith

    first_taken :
        (get_or visited.slots (bit_and (idx + i) mask) 0 == 0) ≡ false
        → AllTaken visited.slots mask idx (i + 1) left
        → AllTaken visited.slots mask idx i (suc left)
    first_taken taken later j l h = elim (Bool-cases (j == i)) [
      | inl here ↦
          subst (λ k. get_or visited.slots (bit_and (idx + k) mask) 0 ≢ 0)
            (sym ((==_iff j i).0 here)) (differ _ taken)
      | inr past ↦ later j (ground arith) (omega arith)
    ]
