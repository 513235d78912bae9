-- ===== src/Visited/Init.antt =====
-- `diskann_visited_set_init`: the capacity it rounds up to, the empty set, and where an `int` is too small.
use native.Mathlib.Nat.{pow-succ', mul_assoc}
use agos_memory.Base.{
  if◌then◌else◌, false, ◌&&◌, is_positive_int, ap, ℕ, zero, suc, ◌*◌, ◌%◌, ◌^◌, ◌<◌, ◌≤◌, ◌≡◌, ◌⊎◌,
  refl, sym, ◌∙◌, inl, inr, arith, Bool, true, false, ltb, Bool-cases, get_or, replicate,
  length-replicate,
}
use agos_memory.Visited.{
  VisitedSet, made, no_memory, overflow, round_up, doublings, visited_set_init,
}
use agos_memory.Visited.Members.{IsProbed, busy-replicate}

-- A power of two that is large enough, and less than twice what was asked for unless it is 16.
record Rounded (cap capacity : ℕ) : Type 0 where
  pub bits : ℕ
  pub power : cap ≡ 2 ^ bits
  pub least : 16 ≤ cap
  pub enough : capacity ≤ cap
  pub frugal : (cap ≡ 16) ⊎ (cap < 2 * capacity)
  pub left : ℕ
  pub top : cap * 2 ^ left ≡ 2 ^ 30

-- `left` doublings away from 2 ^ 30, the largest power of two of an `int`.
twice : (left cap : ℕ) → cap * 2 ^ suc left ≡ 2 ^ 30 → (cap * 2) * 2 ^ left ≡ 2 ^ 30
twice left cap e = mul_assoc cap 2 (2 ^ left) ∙ sym (ap (◌*◌ cap) (pow-succ' 2 left)) ∙ e

below_top : (left cap : ℕ) → cap * 2 ^ left ≡ 2 ^ 30 → cap ≤ 2 ^ 30
below_top zero cap e = omega (arith, e)
below_top (suc left) cap e = omega (arith, below_top left (cap * 2) (twice left cap e))

-- One test more than doublings is enough.
module _ (capacity : ℕ) where
  round_up-Rounded :
      (left cap k : ℕ)
      → capacity ≤ 2 ^ 30
      → cap ≡ 2 ^ k
      → 16 ≤ cap
      → (cap ≡ 16) ⊎ (cap < 2 * capacity)
      → cap * 2 ^ left ≡ 2 ^ 30
      → (r : ℕ) × (round_up (suc left) cap capacity ≡ made r) × Rounded r capacity
  unfolding round_up
  round_up-Rounded zero cap k fits e l f top =
      let done : ltb cap capacity ≡ false = ground (arith, top) in
      rw done (
        cap,
        refl,
        record {
          bits = k;
          power = e;
          least = l;
          enough = omega (arith, top);
          frugal = f;
          left = zero;
          top = top;
        },
      )
  round_up-Rounded (suc left) cap k fits e l f top = elim (Bool-cases (ltb cap capacity)) [
    | inr done ↦ rw done (
      cap,
      refl,
      record {
        bits = k;
        power = e;
        least = l;
        enough = ground arith;
        frugal = f;
        left = suc left;
        top = top;
      },
    )
    | inl small ↦
        let room : ltb (cap * 2) (2 ^ 31) ≡ true = ground (arith, small) in
        rw (small, room)
          (round_up-Rounded left (cap * 2) (suc k) fits (omega (arith, e, pow-succ' 2 k))
            (omega (arith, l)) (inr (ground arith)) (twice left cap top))
  ]

  round_up-overflow :
      (left cap : ℕ)
      → 2 ^ 30 < capacity
      → cap * 2 ^ left ≡ 2 ^ 30
      → round_up (suc left) cap capacity ≡ overflow
  unfolding round_up
  round_up-overflow zero cap large top =
      let small : ltb cap capacity ≡ true = ground (arith, top) in
      let full : ltb (cap * 2) (2 ^ 31) ≡ false = ground (arith, top) in rw (small, full)
  round_up-overflow (suc left) cap large top =
      let within = below_top left (cap * 2) (twice left cap top) in
      let small : ltb cap capacity ≡ true = ground (arith, within) in
      let room : ltb (cap * 2) (2 ^ 31) ≡ true = ground (arith, within) in
      rw (small, room) (round_up-overflow left (cap * 2) large (twice left cap top))

get_or-zeros : (n j : ℕ) → get_or (replicate {A = ℕ} n 0) j 0 ≡ 0
get_or-zeros zero j = refl
get_or-zeros (suc n) zero = refl
get_or-zeros (suc n) (suc j) = get_or-zeros n j

is_positive_int-slots : (cap : ℕ) → 16 ≤ cap → cap < 2 ^ 28 → is_positive_int (cap * 8) ≡ true
is_positive_int-slots cap l h =
    let same : cap * 8 % 2 ^ 32 ≡ cap * 8 = omega arith in rw same (ground arith)

abbrev cleared : ℕ → VisitedSet
cleared cap = record { slots = replicate cap 0; capacity = cap; count = 0 }

cleared-IsProbed : (cap bits : ℕ) → cap ≡ 2 ^ bits → IsProbed (cleared cap)
cleared-IsProbed cap bits e = record {
  bits = bits;
  power = e;
  filled = length-replicate {A = ℕ} cap 0;
  counted = busy-replicate cap;
  reached = λ rowid z h. absurd (z (sym h.1 ∙ get_or-zeros cap h.0));
}

visited_set_init-made :
    (capacity cap : ℕ)
    → round_up doublings 16 capacity ≡ made cap
    → is_positive_int (cap * 8) ≡ true
    → visited_set_init true capacity ≡ made (cleared cap)
unfolding visited_set_init
visited_set_init-made capacity cap e fits = rw (visited_set_init, e, fits)

-- When the memory is there and the capacity is at most 2 ^ 27: an empty set that satisfies the
-- invariant, with room for what was asked for, of 16 slots or fewer than twice as many as asked for.
pub visited_set_init-IsProbed :
    (capacity : ℕ)
    → capacity ≤ 2 ^ 27
    → (v : VisitedSet) × (visited_set_init true capacity ≡ made v)
      × IsProbed v
      × (v.count ≡ 0)
      × (capacity ≤ v.capacity)
      × ((v.capacity ≡ 16) ⊎ (v.capacity < 2 * capacity))
visited_set_init-IsProbed capacity h =
    let (cap, e, r) =
      round_up-Rounded capacity 26 16 4 (omega arith) refl (omega arith) (inl refl) refl in
    let fits = is_positive_int-slots cap r.least (ground (arith, r.frugal)) in
    (
      cleared cap,
      visited_set_init-made capacity cap e fits,
      cleared-IsProbed cap r.bits r.power,
      refl,
      r.enough,
      r.frugal,
    )

-- Of the powers of two up to 2 ^ 30, eight times one above 2 ^ 27 leaves no positive `int`.
not_positive-slots :
    (left cap : ℕ) → cap * 2 ^ left ≡ 2 ^ 30 → 2 ^ 27 < cap → is_positive_int (cap * 8) ≡ false
not_positive-slots zero cap top h = let same : cap ≡ 2 ^ 30 = omega (arith, top) in rw same refl
not_positive-slots (suc zero) cap top h =
    let same : cap ≡ 2 ^ 29 = omega (arith, top) in rw same refl
not_positive-slots (suc (suc zero)) cap top h =
    let same : cap ≡ 2 ^ 28 = omega (arith, top) in rw same refl
not_positive-slots (suc (suc (suc left))) cap top h =
    let e = twice (suc (suc left)) cap top in
    let e' = twice (suc left) (cap * 2) e in
    let e'' = twice left (cap * 2 * 2) e' in
    absurd (omega (arith, below_top left (cap * 2 * 2 * 2) e''))

module _ (allocated : Bool) (capacity : ℕ) where
  too_large : 2 ^ 30 < capacity → visited_set_init allocated capacity ≡ overflow
  unfolding visited_set_init
  too_large h = rw (visited_set_init, round_up-overflow capacity 26 16 h refl)

  no_bytes :
      (cap : ℕ)
      → round_up doublings 16 capacity ≡ made cap
      → is_positive_int (cap * 8) ≡ false
      → visited_set_init allocated capacity ≡ no_memory
  unfolding visited_set_init
  no_bytes cap e none_left = rw (visited_set_init, e, none_left) (neither allocated)
    where
      neither : (b : Bool) → (if b && false then made (cleared cap) else no_memory) ≡ no_memory
      neither true = refl
      neither false = refl

  -- A capacity above 2 ^ 27 gives no set, whether or not there is memory: above 2 ^ 30 the loop comes to
  -- a product that no `int` holds, and else the number of bytes, as an `int`, is not positive.
  pub visited_set_init-fails :
      2 ^ 27 < capacity
      → visited_set_init allocated capacity
        ≡ (if ltb (2 ^ 30) capacity then overflow else no_memory)
  visited_set_init-fails h = elim (Bool-cases (ltb (2 ^ 30) capacity)) [
    | inl large ↦ rw large (too_large (ground (arith, large)))
    | inr fits ↦
        let (cap, e, r) =
          round_up-Rounded capacity 26 16 4 (ground (arith, fits)) refl (omega arith) (inl refl)
            refl in
        rw fits (no_bytes cap e (not_positive-slots r.left cap r.top (omega (arith, r.enough))))
  ]
