-- ===== src/Array/Append.antt =====
-- An array after an element is appended.
use agos_memory.Base.{
  ℕ, zero, suc, ◌+◌, ◌*◌, ◌≤◌, ◌<◌, ◌≡◌, refl, ap, ◌∙◌, inl, inr, arith, List, [], ◌∷◌, ◌++◌, some,
  ◌==◌, length, length-append, take, Bool-cases,
}
use native.Mathlib.Nat.{mul-le-mul_right}
use agos_memory.Nodes.{copy_out}
use agos_memory.Nodes.Bytes.{copy_out-slot_self, copy_out-slot_other, length-copy_in}
use agos_memory.Array.{Array, push, array_append}

abbrev pub element : Array → ℕ → List ℕ
element array i = copy_out (i * array.element_size) array.element_size array.z

-- The memory is what the capacity asks for.
pub record IsArray (array : Array) : Type 0 where
  pub size : length array.z ≡ array.capacity * array.element_size
  pub within : array.length ≤ array.capacity

take-append : (n : ℕ) (xs ys : List ℕ) → n ≤ length xs → take n (xs ++ ys) ≡ take n xs
take-append zero xs ys h = refl
take-append (suc n) [] ys h = absurd (omega arith)
take-append (suc n) (x ∷ xs) ys h = ap (◌∷◌ x) (take-append n xs ys (omega arith))

copy_out-append :
    (a n : ℕ) (xs ys : List ℕ) → a + n ≤ length xs → copy_out a n (xs ++ ys) ≡ copy_out a n xs
unfolding copy_out
copy_out-append zero n xs ys h = take-append n xs ys (omega arith)
copy_out-append (suc a) n [] ys h = absurd (omega arith)
copy_out-append (suc a) n (x ∷ xs) ys h = copy_out-append a n xs ys (omega arith)

-- The new element is behind the old ones, which stay; the memory is again what the capacity asks for,
-- and elements have the size they had.
pub record Appends (array : Array) (new : List ℕ) (after : Array) : Type 0 where
  pub kept : IsArray after
  pub same_size : after.element_size ≡ array.element_size
  pub longer : after.length ≡ array.length + 1
  pub last : element after array.length ≡ new
  pub others : (i : ℕ) → i < array.length → element after i ≡ element array i

push-Appends :
    (array : Array) (new : List ℕ)
    → IsArray array
    → length new ≡ array.element_size
    → array.length < array.capacity
    → Appends array new (push array new)
unfolding push
push-Appends array new w e l = record {
  kept = record {
    size = length-copy_in (array.length * array.element_size) new array.z ∙ w.size;
    within = omega (arith, l);
  };
  same_size = refl;
  longer = refl;
  last = copy_out-slot_self array.capacity array.element_size array.length new array.z w.size e l;
  others =
      λ i h. copy_out-slot_other array.element_size array.length i new array.z e (omega (arith, h));
}

-- While the memory is what the capacity asks for, and what a reallocation adds is what the new
-- capacity asks for: the append succeeds, the memory is what the capacity then asks for, the new element
-- is last and the others are as they were.
pub array_append-Appends :
    (array : Array) (more new : List ℕ)
    → IsArray array
    → length more ≡ (array.capacity + 100) * array.element_size
    → length new ≡ array.element_size
    → (after : Array) × (array_append array (some more) new ≡ some after) × Appends array new after
unfolding array_append
array_append-Appends array more new w m e = elim (Bool-cases (array.length == array.capacity)) [
  | inr room ↦ rw room (_, refl, push-Appends array new w e (ground (arith, w.within)))
  | inl full ↦ rw full (_, refl, kept)
]
  where
    grown_size : length (array.z ++ more) ≡ (array.capacity * 2 + 100) * array.element_size
    grown_size = omega (arith, length-append array.z more, m, w.size)

    kept :
        Appends array new
          (push (record array { capacity = array.capacity * 2 + 100; z = array.z ++ more }) new)
    kept =
        let p =
          push-Appends (record array { capacity = array.capacity * 2 + 100; z = array.z ++ more })
            new (record { size = grown_size; within = omega (arith, w.within) }) e
            (omega (arith, w.within)) in
        record {
          kept = p.kept;
          same_size = p.same_size;
          longer = p.longer;
          last = p.last;
          others = λ i h.
              let fits : (i + 1) * array.element_size ≤ array.capacity * array.element_size =
                mul-le-mul_right array.element_size (omega (arith, h, w.within)) in
              p.others i h
              ∙ copy_out-append (i * array.element_size) array.element_size array.z more
                  (omega (arith, fits, w.size));
        }
