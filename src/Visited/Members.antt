-- ===== src/Visited/Members.antt =====
-- The visited set as a set: `contains` after `insert`, and the invariant that makes it right.
use native.Mathlib.Nat.{mod-lt}
use agos_memory.Base.{
  ℕ, zero, suc, ◌+◌, ◌-◌, ◌%◌, ◌^◌, ◌<◌, ◌≤◌, ◌≡◌, ◌≢◌, ◌⊎◌, refl, sym, ap, ◌∙◌, subst, inl, inr,
  arith, bit_and, Bool, true, false, ◌||◌, List, [], ◌∷◌, if◌then◌else◌, ◌==◌, ==_iff, Bool-cases,
  length, get_or, set, replicate, length-set,
}
use agos_memory.Visited.{
  VisitedSet, home_slot, contains_loop, visited_set_contains, insert_loop, visited_set_insert,
}
use agos_memory.Visited.Probes.{
  Holds, Keeps, AllTaken, Outcome, same, fills, insert_loop-Outcome, Outcome-Keeps, Outcome-Holds,
  contains_loop-Keeps, contains_loop-Holds, contains_loop-insert_loop,
}
use agos_memory.Visited.Mask.{bit_and-mask, probe_reaches, two_pow_pos}

-- The slots taken.
abbrev busy : List ℕ → ℕ
busy [] = 0
busy (x ∷ slots) = (if x == 0 then 0 else 1) + busy slots

-- The capacity is a power of two and the number of slots; `count` counts the slots taken; and every
-- rowid stored is found.
pub record IsProbed (visited : VisitedSet) : Type 0 where
  pub bits : ℕ
  pub power : visited.capacity ≡ 2 ^ bits
  pub filled : length visited.slots ≡ visited.capacity
  pub counted : busy visited.slots ≡ visited.count
  pub reached :
      (rowid : ℕ)
      → rowid ≢ 0
      → Holds visited.slots rowid
      → visited_set_contains visited rowid ≡ true

pub busy-replicate : (n : ℕ) → busy (replicate n 0) ≡ 0
busy-replicate zero = refl
busy-replicate (suc n) = omega (arith, busy-replicate n)

busy-set :
    (slots : List ℕ) (j v : ℕ)
    → j < length slots
    → get_or slots j 0 ≡ 0
    → v ≢ 0
    → busy (set slots j v) ≡ busy slots + 1
busy-set [] j v l e z = absurd (omega arith)
busy-set (x ∷ slots) zero v l e z = ground (arith, e)
busy-set (x ∷ slots) (suc j) v l e z = ground (arith, busy-set slots j v (omega arith) e z)

-- While not all slots are taken one is free.
free_slot :
    (slots : List ℕ)
    → busy slots < length slots
    → (j : ℕ) × (j < length slots) × (get_or slots j 0 ≡ 0)
free_slot [] h = absurd (omega arith)
free_slot (x ∷ slots) h = elim (Bool-cases (x == 0)) [
  | inl e ↦ (0, omega arith, (==_iff x 0).0 e)
  | inr e ↦
      let later = free_slot slots (ground (arith, e)) in
      (suc later.0, omega (arith, later.1), later.2)
]

free-busy :
    (slots : List ℕ) (j : ℕ) → j < length slots → get_or slots j 0 ≡ 0 → busy slots < length slots
free-busy [] j l e = absurd (omega arith)
free-busy (x ∷ slots) zero l e = ground (arith, busy-le slots)
  where
    busy-le : (slots : List ℕ) → busy slots ≤ length slots
    busy-le [] = omega arith
    busy-le (x ∷ slots) = ground (arith, busy-le slots)
free-busy (x ∷ slots) (suc j) l e = ground (arith, free-busy slots j (omega arith) e)

is_not_zero : (r : ℕ) → r ≢ 0 → (r == 0) ≡ false
is_not_zero r h = ground arith

-- Past the test for 0.
abbrev probed : VisitedSet → ℕ → Bool
probed visited rowid =
    contains_loop visited.slots (visited.capacity - 1) (home_slot rowid (visited.capacity - 1))
      rowid visited.capacity 0

contains-probed :
    (visited : VisitedSet) (rowid : ℕ)
    → rowid ≢ 0
    → visited_set_contains visited rowid ≡ probed visited rowid
unfolding visited_set_contains
contains-probed visited rowid z = rw (is_not_zero rowid z) refl

contains-Keeps :
    (visited after : VisitedSet) (rowid : ℕ)
    → rowid ≢ 0
    → after.capacity ≡ visited.capacity
    → Keeps visited.slots after.slots
    → visited_set_contains visited rowid ≡ true
    → visited_set_contains after rowid ≡ true
contains-Keeps visited after rowid z e k h =
    contains-probed after rowid z
    ∙ rw e (
        contains_loop-Keeps visited.slots after.slots _ _ rowid _ 0 k
          (sym (contains-probed visited rowid z) ∙ h))

zero-contains :
    (visited : VisitedSet) (rowid : ℕ)
    → (rowid == 0) ≡ true
    → visited_set_contains visited rowid ≡ false
unfolding visited_set_contains
zero-contains visited rowid e = rw e refl

module _ (visited : VisitedSet) (w : IsProbed visited) where
  probe_lands : (x : ℕ) → bit_and x (visited.capacity - 1) ≡ x % visited.capacity
  probe_lands x = rw (w.power) (bit_and-mask w.bits x)

  capacity_pos : 0 < visited.capacity
  capacity_pos = omega (arith, w.power, two_pow_pos w.bits)

  in_bounds : (x : ℕ) → bit_and x (visited.capacity - 1) < length visited.slots
  in_bounds x = omega (arith, probe_lands x, w.filled, mod-lt x capacity_pos)

  -- A chain of probes reaches the free slot.
  AllTaken-impossible :
      (idx : ℕ)
      → visited.count < visited.capacity
      → AllTaken visited.slots (visited.capacity - 1) idx 0 visited.capacity
      → ⊥
  AllTaken-impossible idx room taken =
      let free = free_slot visited.slots (omega (arith, w.counted, w.filled)) in
      let probe = probe_reaches visited.capacity idx free.0 (omega (arith, free.1, w.filled)) in
      taken probe.0 (omega arith) (omega (arith, probe.1))
        (ap (λ j. get_or visited.slots j 0) (probe_lands (idx + probe.0) ∙ probe.2) ∙ free.2)

  module _ (rowid : ℕ) (z : rowid ≢ 0) where
    abbrev home : ℕ
    home = home_slot rowid (visited.capacity - 1)

    abbrev after : VisitedSet × ℕ
    after = insert_loop visited (visited.capacity - 1) home rowid visited.capacity 0

    insert-eq : visited_set_insert visited rowid ≡ after
    unfolding visited_set_insert
    insert-eq = rw (is_not_zero rowid z) refl

    outcome : Outcome visited rowid after.0 after.1
    outcome = insert_loop-Outcome visited _ home rowid visited.capacity 0 in_bounds

    capacity-Outcome :
        (v : VisitedSet) (rc : ℕ) → Outcome visited rowid v rc → v.capacity ≡ visited.capacity
    capacity-Outcome v rc same = refl
    capacity-Outcome v rc (fills j l e) = refl

    found_after : visited.count < visited.capacity → probed after.0 rowid ≡ true
    found_after room = rw (capacity-Outcome after.0 after.1 outcome) (
        contains_loop-insert_loop visited _ home rowid visited.capacity 0 z in_bounds
          (AllTaken-impossible home room))

    IsProbed-Outcome :
        (v : VisitedSet) (rc : ℕ)
        → Outcome visited rowid v rc
        → (visited.count < visited.capacity → probed v rowid ≡ true)
        → IsProbed v
    IsProbed-Outcome v rc same h = w
    IsProbed-Outcome v rc (fills j l e) h =
        let v = record visited { slots = set visited.slots j rowid; count = visited.count + 1 } in
        let room : visited.count < visited.capacity =
          omega (arith, free-busy visited.slots j l e, w.counted, w.filled) in
        record {
          bits = w.bits;
          power = w.power;
          filled = length-set visited.slots j rowid ∙ w.filled;
          counted = omega (arith, busy-set visited.slots j rowid l e z, w.counted);
          reached = λ r rz k. elim (Outcome-Holds visited v rowid 1 r (fills j l e) k) [
            | inl new ↦
                subst (λ q. visited_set_contains v q ≡ true) (sym new)
                  (contains-probed v rowid z ∙ h room)
            | inr old ↦
                contains-Keeps visited v r rz refl (Outcome-Keeps visited v rowid 1 (fills j l e))
                  (w.reached r rz old)
          ];
        }

-- The invariant is kept by every insertion, into a full set and of rowid 0 included.
pub IsProbed-insert :
    (visited : VisitedSet) (rowid : ℕ)
    → IsProbed visited
    → IsProbed (visited_set_insert visited rowid).0
unfolding visited_set_insert
IsProbed-insert visited rowid w = elim (Bool-cases (rowid == 0)) [
  | inl zero_row ↦ rw zero_row w
  | inr row ↦
      let z = not_zero rowid row in
      subst (λ r. IsProbed r.0) (sym (insert-eq visited w rowid z))
        (IsProbed-Outcome visited w rowid z _ _ (outcome visited w rowid z)
          (found_after visited w rowid z))
]
  where
    not_zero : (r : ℕ) → (r == 0) ≡ false → r ≢ 0
    not_zero r e = ground arith

-- While there is room, exactly the rowid inserted and those found before are found; a rowid is not 0.
pub contains-insert :
    (visited : VisitedSet) (rowid other : ℕ)
    → IsProbed visited
    → visited.count < visited.capacity
    → rowid ≢ 0
    → visited_set_contains (visited_set_insert visited rowid).0 other
      ≡ (other == rowid || visited_set_contains visited other)
contains-insert visited rowid other w room z =
    subst
      (λ r. visited_set_contains r.0 other ≡ (other == rowid || visited_set_contains visited other))
      (sym (insert-eq visited w rowid z))
      (elim (Bool-cases (other == 0)) [
        | inl nothing ↦
            sides _ _ _ (zero-contains _ other nothing) (zero-contains visited other nothing)
              (ground arith)
        | inr row ↦ cases (not_zero other row)
      ])
  where
    v : VisitedSet
    v = (after visited w rowid z).0

    not_zero : (r : ℕ) → (r == 0) ≡ false → r ≢ 0
    not_zero r e = ground arith

    sides : (a b c : Bool) → a ≡ false → b ≡ false → c ≡ false → a ≡ (c || b)
    sides a b c d e f = ground arith

    iff :
        (a b c : Bool)
        → (a ≡ true → (c ≡ true) ⊎ (b ≡ true))
        → (b ≡ true → a ≡ true)
        → (c ≡ true → a ≡ true)
        → a ≡ (c || b)
    iff true b c d e f = elim (d refl) [ inl h ↦ ground (arith, h) | inr h ↦ ground (arith, h) ]
    iff false b c d e f = ground (arith, e, f)

    same_row : (other ≡ rowid) → (other == rowid) ≡ true
    same_row h = (==_iff other rowid).1 h

    cases :
        other ≢ 0
        → visited_set_contains v other ≡ (other == rowid || visited_set_contains visited other)
    cases oz =
        iff _ _ _
          (λ h.
            elim (Outcome-Holds visited v rowid _ other (outcome visited w rowid z)
              (contains_loop-Holds v.slots _ _ other _ 0 (sym (contains-probed v other oz) ∙ h))) [
                | inl new ↦ inl (same_row new)
                | inr old ↦ inr (w.reached other oz old)
              ])
          (contains-Keeps visited v other oz
            (capacity-Outcome visited w rowid z v _ (outcome visited w rowid z))
            (Outcome-Keeps visited v rowid _ (outcome visited w rowid z)))
          (λ h.
            subst (λ q. visited_set_contains v q ≡ true) (sym ((==_iff other rowid).0 h))
              (contains-probed v rowid z ∙ found_after visited w rowid z room))
