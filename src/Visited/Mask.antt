-- ===== src/Visited/Mask.antt =====
-- The mask of a capacity that is a power of two: the probes of a chain reach every slot.
use native.Mathlib.Nat.{
  mod-lt, mod-eq_of_lt, mod-add-mod, add-mod_right, div-add-mod', mul-add-mod_self_right, pow-succ',
}
use agos_memory.Base.{
  ℕ, zero, suc, ◌+◌, ◌-◌, ◌*◌, ◌/◌, ◌%◌, ◌^◌, ◌<◌, ◌≡◌, sym, ap, ◌∙◌, arith, bit_and, bit_and_step,
  bit_and-zero, Bool-cases, leb, inl, inr,
}

pub two_pow_pos : (k : ℕ) → 0 < 2 ^ k
two_pow_pos zero = omega arith
two_pow_pos (suc k) = rw pow-succ' (omega (arith, two_pow_pos k))

-- The remainder by twice `p`, from the remainder of the half.
mod-double : (x p : ℕ) → 0 < p → x / 2 % p * 2 + x % 2 ≡ x % (p * 2)
mod-double x p h =
    let small : x / 2 % p < p = mod-lt (x / 2) h in
    let parts : x ≡ x / 2 / p * (p * 2) + (x / 2 % p * 2 + x % 2) =
      omega (arith, div-add-mod' (x / 2) p) in
    let reduced = mul-add-mod_self_right (x / 2 / p) (p * 2) (x / 2 % p * 2 + x % 2) in
    let under : x / 2 % p * 2 + x % 2 < p * 2 = omega (arith, small) in
    sym (ap (λ y. y % (p * 2)) parts ∙ reduced ∙ mod-eq_of_lt under)

pub bit_and-mask : (k x : ℕ) → bit_and x (2 ^ k - 1) ≡ x % 2 ^ k
bit_and-mask zero x = omega (arith, bit_and-zero x)
bit_and-mask (suc k) x =
    half (2 ^ k) (2 ^ suc k) (two_pow_pos k) (pow-succ' 2 k) (bit_and-mask k (x / 2))
  where
    half :
        (p q : ℕ)
        → 0 < p
        → q ≡ 2 * p
        → bit_and (x / 2) (p - 1) ≡ x / 2 % p
        → bit_and x (q - 1) ≡ x % q
    half p q h e b =
        let halved : (q - 1) / 2 ≡ p - 1 = omega (arith, h, e) in
        let odd : (q - 1) % 2 ≡ 1 = omega (arith, h, e) in
        let twice : q ≡ p * 2 = omega (arith, e) in
        let step = bit_and_step x (q - 1) in
        step ∙ rw (halved, odd, b, twice) (omega (arith, mod-double x p h))

-- Counted from `idx`, the slot `j` is one of the first `m`.
pub probe_reaches : (m idx j : ℕ) → j < m → (i : ℕ) × (i < m) × ((idx + i) % m ≡ j)
probe_reaches m idx j h = elim (Bool-cases (leb (idx % m) j)) [
  | inl e ↦
      let at : idx % m + (j - idx % m) ≡ j = ground arith in
      (
        j - idx % m,
        omega arith,
        sym (mod-add-mod idx m (j - idx % m)) ∙ (ap (λ y. y % m) at ∙ mod-eq_of_lt h),
      )
  | inr e ↦
      let small : idx % m < m = mod-lt idx (omega arith) in
      let at : idx % m + (j + m - idx % m) ≡ j + m = ground arith in
      (
        j + m - idx % m,
        ground arith,
        sym (mod-add-mod idx m (j + m - idx % m))
            ∙ (ap (λ y. y % m) at ∙ (add-mod_right j m ∙ mod-eq_of_lt h)),
      )
]
