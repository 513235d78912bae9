-- ===== src/Bitmap/Meet.antt =====
-- `bitmap_and_inplace` meets two bitmaps.
use agos_memory.Base.{
  ℕ, zero, suc, ◌+◌, ◌*◌, ◌/◌, ◌%◌, ◌≤◌, ◌<◌, ◌≡◌, refl, ◌&&◌, min, arith, ltb, leb, ◌==◌, not,
  if◌then◌else◌, length, get_or, set, length-set, get_or-set_self, get_or-set_ne, bit_and,
  bit_and_digit, bit_and-le, inl, inr, Bool-cases,
}
use agos_memory.Bitmap.{Bitmap, and_loop, bitmap_and_inplace, has}
use agos_memory.Bitmap.Byte.{digit}
use agos_memory.Bitmap.Access.{IsBytes, bitmap_get-digit, set-IsBytes, get_or-IsBytes}

length-and_loop :
    (left i : ℕ) (base other : Bitmap) → length (and_loop left i base other) ≡ length base
unfolding and_loop
length-and_loop zero i base other = refl
length-and_loop (suc left) i base other = omega (
  arith,
  length-and_loop left (i + 1) (set base i (bit_and (get_or base i 0) (get_or other i 0))) other,
  length-set base i (bit_and (get_or base i 0) (get_or other i 0)),
)

abbrev meet : Bitmap → Bitmap → ℕ → ℕ
meet base other j = bit_and (get_or base j 0) (get_or other j 0)

get_or-and_loop :
    (left i j : ℕ) (base other : Bitmap)
    → i + left ≤ length base
    → get_or (and_loop left i base other) j 0
      ≡ (if leb i j && ltb j (i + left) then meet base other j else get_or base j 0)
unfolding and_loop
get_or-and_loop zero i j base other h = ground arith
get_or-and_loop (suc left) i j base other h = elim (Bool-cases (i == j)) [
  | inl same ↦ ground (
    arith,
    length-set base i (meet base other i),
    get_or-and_loop left (i + 1) j (set base i (meet base other i)) other,
    get_or-set_self base j (meet base other j) 0,
  )
  | inr other_place ↦ ground (
    arith,
    length-set base i (meet base other i),
    get_or-and_loop left (i + 1) j (set base i (meet base other i)) other,
    get_or-set_ne base i j (meet base other i) 0 (λ e. ground arith),
  )
]

two_digits : (a b : ℕ) → a < 2 → b < 2 → not (min a b == 0) ≡ (not (a == 0) && not (b == 0))
two_digits a b ha hb = ground arith

-- Below n the result has the slots that both bitmaps have.
pub has-bitmap_and_inplace :
    (base other : Bitmap) (n q : ℕ)
    → n ≤ 8 * length base
    → q / 8 < n / 8
    → has (bitmap_and_inplace base other n) q ≡ (has base q && has other q)
unfolding bitmap_and_inplace
has-bitmap_and_inplace base other n q hn hq = ground (
  arith,
  bitmap_get-digit (and_loop (n / 8) 0 base other) q,
  bitmap_get-digit base q,
  bitmap_get-digit other q,
  get_or-and_loop (n / 8) 0 (q / 8) base other (omega arith),
  bit_and_digit (q % 8) (get_or base (q / 8) 0) (get_or other (q / 8) 0),
  two_digits (digit (get_or base (q / 8) 0) (q % 8)) (digit (get_or other (q / 8) 0) (q % 8)),
)

and_loop-IsBytes :
    (left i : ℕ) (base other : Bitmap) → IsBytes base → IsBytes (and_loop left i base other)
unfolding and_loop
and_loop-IsBytes zero i base other h = h
and_loop-IsBytes (suc left) i base other h =
    and_loop-IsBytes left (i + 1) (set base i (meet base other i)) other (
      set-IsBytes base i _
        (omega (arith, bit_and-le (get_or base i 0) (get_or other i 0), get_or-IsBytes base i h)) h)

pub bitmap_and_inplace-IsBytes :
    (base other : Bitmap) (n : ℕ) → IsBytes base → IsBytes (bitmap_and_inplace base other n)
unfolding bitmap_and_inplace
bitmap_and_inplace-IsBytes base other n h = and_loop-IsBytes (n / 8) 0 base other h

pub length-bitmap_and_inplace :
    (base other : Bitmap) (n : ℕ) → length (bitmap_and_inplace base other n) ≡ length base
unfolding bitmap_and_inplace
length-bitmap_and_inplace base other n = length-and_loop (n / 8) 0 base other
