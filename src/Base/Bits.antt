-- ===== src/Base/Bits.antt =====
-- The digits of a native number, and those of `&`.
use Prim.Native.Nat.{
  ℕ, zero, suc, ◌+◌, ◌-◌, ◌*◌, ◌/◌, ◌%◌, ◌^◌, ◌≤◌, min, bit_and, digits, bit_and-bitwise,
}
use mathlib.Core.Path.{◌≡◌, refl, sym, ◌∙◌}
use native.Mathlib.Nat.{div-div-eq-div-mul, pow-succ'}
use native.Mathlib.Omega.{arith}

-- What `&` stands for: at most `rounds` digits, from the lowest.
abbrev meet : ℕ → ℕ → ℕ → ℕ
meet rounds a b = digits (λ _. zero) min rounds a b

-- One round more than `a` has digits changes nothing.
meet_more : (rounds a b : ℕ) → a ≤ rounds → meet (suc rounds) a b ≡ meet rounds a b
meet_more zero a b h = let none_left : a ≡ zero = omega arith in rw none_left
meet_more (suc k) zero b h = refl
meet_more (suc k) (suc a) b h = omega (arith, meet_more k (suc a / 2) (b / 2) (omega arith))

-- Nor do `extra` rounds more.
meet_extra : (extra rounds a b : ℕ) → rounds ≡ extra + a → meet rounds a b ≡ bit_and a b
meet_extra zero rounds a b e =
    let all : rounds ≡ a = omega arith in rw all (sym (bit_and-bitwise a b))
meet_extra (suc extra) zero a b e = absurd (omega arith)
meet_extra (suc extra) (suc k) a b e =
    meet_more k a b (omega arith) ∙ meet_extra extra k a b (omega arith)

-- The law for the lowest digit.
pub bit_and_step : (a b : ℕ) → bit_and a b ≡ bit_and (a / 2) (b / 2) * 2 + min (a % 2) (b % 2)
bit_and_step a b =
    let doubled = meet_extra 1 (suc a) a b (omega arith) in
    let halved = meet_extra (a - a / 2) a (a / 2) (b / 2) (omega arith) in lowest a b doubled halved
  where
    lowest :
        (a b : ℕ)
        → meet (suc a) a b ≡ bit_and a b
        → meet a (a / 2) (b / 2) ≡ bit_and (a / 2) (b / 2)
        → bit_and a b ≡ bit_and (a / 2) (b / 2) * 2 + min (a % 2) (b % 2)
    lowest zero b p q = omega arith
    lowest (suc a) b p q = omega arith

meet-zero : (rounds a : ℕ) → meet rounds a 0 ≡ 0
meet-zero zero a = refl
meet-zero (suc k) zero = refl
meet-zero (suc k) (suc a) = omega (arith, meet-zero k (suc a / 2))

pub bit_and-zero : (a : ℕ) → bit_and a 0 ≡ 0
bit_and-zero a = omega (arith, bit_and-bitwise a 0, meet-zero a a)

-- `& 1` is the lowest digit.
pub bit_and-one : (a : ℕ) → bit_and a 1 ≡ a % 2
bit_and-one a =
    omega (arith, bit_and_step a 1, bit_and-bitwise (a / 2) 0, meet-zero (a / 2) (a / 2))

div-two-pow : (a i : ℕ) → a / 2 ^ suc i ≡ a / 2 / 2 ^ i
div-two-pow a i = rw pow-succ' (sym (div-div-eq-div-mul a 2 (2 ^ i)))

bit_and-half : (a b : ℕ) → bit_and a b / 2 ≡ bit_and (a / 2) (b / 2)
bit_and-half a b = omega (arith, bit_and_step a b)

-- The digit at place i of `a & b` is the smaller of the two digits there.
pub bit_and_digit : (i a b : ℕ) → bit_and a b / 2 ^ i % 2 ≡ min (a / 2 ^ i % 2) (b / 2 ^ i % 2)
bit_and_digit zero a b = omega (arith, bit_and_step a b)
bit_and_digit (suc i) a b =
    rw (div-two-pow (bit_and a b) i, div-two-pow a i, div-two-pow b i, bit_and-half a b)
      (bit_and_digit i (a / 2) (b / 2))

meet-le : (rounds a b : ℕ) → meet rounds a b ≤ a
meet-le zero a b = omega arith
meet-le (suc k) zero b = omega arith
meet-le (suc k) (suc a) b = omega (arith, meet-le k (suc a / 2) (b / 2))

pub bit_and-le : (a b : ℕ) → bit_and a b ≤ a
bit_and-le a b = omega (arith, bit_and-bitwise a b, meet-le a a b)
