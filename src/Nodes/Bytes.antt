-- ===== src/Nodes/Bytes.antt =====
-- Reading a blob after a write to it.
use native.Mathlib.Nat.{mul-le-mul_right}
use agos_memory.Base.{
  ℕ, zero, suc, ◌+◌, ◌*◌, ◌≤◌, ◌<◌, ◌≡◌, ◌≢◌, refl, ap, subst, inl, inr, arith, List, [], ◌∷◌,
  length, take, ltb, Bool-cases,
}
use agos_memory.Nodes.{copy_out, copy_in, overlay}

take-overlay :
    (bytes blob : List ℕ)
    → length bytes ≤ length blob
    → take (length bytes) (overlay bytes blob) ≡ bytes
unfolding overlay
take-overlay [] blob h = refl
take-overlay (b ∷ bytes) [] h = absurd (omega arith)
take-overlay (b ∷ bytes) (x ∷ blob) h = ap (◌∷◌ b) (take-overlay bytes blob (omega arith))

copy_out_self :
    (a : ℕ) (bytes blob : List ℕ)
    → a + length bytes ≤ length blob
    → copy_out a (length bytes) (copy_in a bytes blob) ≡ bytes
unfolding copy_out copy_in
copy_out_self zero bytes blob h = take-overlay bytes blob (omega arith)
copy_out_self (suc a) [] [] h = refl
copy_out_self (suc a) (b ∷ bytes) [] h = absurd (omega arith)
copy_out_self (suc a) bytes (x ∷ blob) h = copy_out_self a bytes blob (omega arith)

take-copy_in : (n a : ℕ) (bytes blob : List ℕ) → n ≤ a → take n (copy_in a bytes blob) ≡ take n blob
unfolding copy_in
take-copy_in zero a bytes blob h = refl
take-copy_in (suc n) zero bytes blob h = absurd (omega arith)
take-copy_in (suc n) (suc a) bytes [] h = refl
take-copy_in (suc n) (suc a) bytes (x ∷ blob) h =
    ap (◌∷◌ x) (take-copy_in n a bytes blob (omega arith))

copy_out-before :
    (b n a : ℕ) (bytes blob : List ℕ)
    → b + n ≤ a
    → copy_out b n (copy_in a bytes blob) ≡ copy_out b n blob
unfolding copy_out copy_in
copy_out-before zero n a bytes blob h = take-copy_in n a bytes blob (omega arith)
copy_out-before (suc b) n zero bytes blob h = absurd (omega arith)
copy_out-before (suc b) n (suc a) bytes [] h = refl
copy_out-before (suc b) n (suc a) bytes (x ∷ blob) h =
    copy_out-before b n a bytes blob (omega arith)

copy_out-overlay :
    (b n : ℕ) (bytes blob : List ℕ)
    → length bytes ≤ b
    → copy_out b n (overlay bytes blob) ≡ copy_out b n blob
unfolding copy_out overlay
copy_out-overlay b n [] blob h = refl
copy_out-overlay zero n (c ∷ bytes) blob h = absurd (omega arith)
copy_out-overlay (suc b) n (c ∷ bytes) [] h = refl
copy_out-overlay (suc b) n (c ∷ bytes) (x ∷ blob) h = copy_out-overlay b n bytes blob (omega arith)

copy_out-after :
    (b n a : ℕ) (bytes blob : List ℕ)
    → a + length bytes ≤ b
    → copy_out b n (copy_in a bytes blob) ≡ copy_out b n blob
unfolding copy_out copy_in
copy_out-after b n zero bytes blob h = copy_out-overlay b n bytes blob (omega arith)
copy_out-after zero n (suc a) bytes blob h = absurd (omega arith)
copy_out-after (suc b) n (suc a) bytes [] h = refl
copy_out-after (suc b) n (suc a) bytes (x ∷ blob) h = copy_out-after b n a bytes blob (omega arith)

-- Slots of `s` bytes: the one written reads as written, the others as before.
pub copy_out-slot_self :
    (m s i : ℕ) (bytes blob : List ℕ)
    → length blob ≡ m * s
    → length bytes ≡ s
    → i < m
    → copy_out (i * s) s (copy_in (i * s) bytes blob) ≡ bytes
copy_out-slot_self m s i bytes blob e f h =
    let fits : (i + 1) * s ≤ m * s = mul-le-mul_right s (omega arith) in
    subst (λ k. copy_out (i * s) k (copy_in (i * s) bytes blob) ≡ bytes) f
      (copy_out_self (i * s) bytes blob (omega (arith, fits, e, f)))

pub copy_out-slot_other :
    (s i j : ℕ) (bytes blob : List ℕ)
    → length bytes ≡ s
    → i ≢ j
    → copy_out (j * s) s (copy_in (i * s) bytes blob) ≡ copy_out (j * s) s blob
copy_out-slot_other s i j bytes blob f d = elim (Bool-cases (ltb j i)) [
  | inl lower ↦
      let fits : (j + 1) * s ≤ i * s = mul-le-mul_right s (ground arith) in
      copy_out-before (j * s) s (i * s) bytes blob (omega (arith, fits))
  | inr upper ↦
      let fits : (i + 1) * s ≤ j * s = mul-le-mul_right s (ground (arith, d)) in
      copy_out-after (j * s) s (i * s) bytes blob (omega (arith, fits, f))
]

-- A slot lies in the blob.
pub slot_reach : (m s i : ℕ) → i < m → i * s + s ≤ m * s
slot_reach m s i h =
    let fits : (i + 1) * s ≤ m * s = mul-le-mul_right s (omega arith) in omega (arith, fits)

-- A write keeps the length.
length-overlay : (bytes blob : List ℕ) → length (overlay bytes blob) ≡ length blob
unfolding overlay
length-overlay [] blob = refl
length-overlay (b ∷ bytes) [] = refl
length-overlay (b ∷ bytes) (x ∷ blob) = ap suc (length-overlay bytes blob)

pub length-copy_in : (a : ℕ) (bytes blob : List ℕ) → length (copy_in a bytes blob) ≡ length blob
unfolding copy_in
length-copy_in zero bytes blob = length-overlay bytes blob
length-copy_in (suc a) bytes [] = refl
length-copy_in (suc a) bytes (x ∷ blob) = ap suc (length-copy_in a bytes blob)
