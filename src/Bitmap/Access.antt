-- ===== src/Bitmap/Access.antt =====
-- Reading and writing one slot of a bitmap, and the bulk writes.
use agos_memory.Base.{
  ℕ, zero, suc, ◌*◌, ◌/◌, ◌%◌, ◌≤◌, ◌<◌, ◌≡◌, refl, ap, inl, inr, true, false, not, ◌&&◌, [], ◌∷◌,
  arith, ◌==◌, ltb, if◌then◌else◌, length, get_or, set, length-set, get_or-set_self, get_or-set_ne,
  All, bit_and-one, Bool-cases, ==_iff, &&_parts, every, every-apply,
}
use agos_memory.Bitmap.{
  Bitmap, memset, bitmap_set, bitmap_get, bitmap_clear, bitmap_fill, byte_on, byte_off, has,
}
use agos_memory.Bitmap.Byte.{digit, digit-byte_on, digit-byte_off, byte_on-lt, byte_off-lt}

-- Every element is a byte.
abbrev pub IsBytes : Bitmap → Type 0
IsBytes bm = All (λ x. x < 256) bm

pub get_or-IsBytes : (bm : Bitmap) (i : ℕ) → IsBytes bm → get_or bm i 0 < 256
get_or-IsBytes [] i h = omega arith
get_or-IsBytes (x ∷ xs) zero h = h.0
get_or-IsBytes (x ∷ xs) (suc i) h = get_or-IsBytes xs i h.1

pub set-IsBytes : (bm : Bitmap) (i v : ℕ) → v < 256 → IsBytes bm → IsBytes (set bm i v)
set-IsBytes [] i v hv h = h
set-IsBytes (x ∷ xs) zero v hv h = (hv, h.1)
set-IsBytes (x ∷ xs) (suc i) v hv h = (h.0, set-IsBytes xs i v hv h.1)

pub bitmap_get-digit : (bm : Bitmap) (q : ℕ) → bitmap_get bm q ≡ digit (get_or bm (q / 8) 0) (q % 8)
unfolding bitmap_get
bitmap_get-digit bm q = bit_and-one _

pub length-bitmap_set : (bm : Bitmap) (p v : ℕ) → length (bitmap_set bm p v) ≡ length bm
unfolding bitmap_set
length-bitmap_set bm p v = length-set bm _ _

pub bitmap_set-IsBytes : (bm : Bitmap) (p v : ℕ) → IsBytes bm → IsBytes (bitmap_set bm p v)
unfolding bitmap_set
bitmap_set-IsBytes bm p v h =
    set-IsBytes bm (p / 8) _
      (ground (
        arith,
        byte_on-lt (get_or bm (p / 8) 0) (p % 8) (get_or-IsBytes bm (p / 8) h),
        byte_off-lt (get_or bm (p / 8) 0) (p % 8) (get_or-IsBytes bm (p / 8) h),
      ))
      h

other_byte : (p q : ℕ) → p / 8 ≡ q / 8 → (p / 8 == q / 8) ≡ false → ⊥
other_byte p q e h = ground arith

full_table : every (λ i. digit 0xff i == 1 && digit 0 i == 0) 8 ≡ true
unfolding every
full_table = refl

pub full_byte : (i : ℕ) → i < 8 → digit 0xff i ≡ 1
full_byte i h = (==_iff _ _).0 (&&_parts _ _ (every-apply _ 8 i h full_table)).0

pub empty_byte : (i : ℕ) → i < 8 → digit 0 i ≡ 0
empty_byte i h = (==_iff _ _).0 (&&_parts _ _ (every-apply _ 8 i h full_table)).1

-- A written slot reads as written, and every other slot as before.
pub bitmap_get-bitmap_set :
    (bm : Bitmap) (p q v : ℕ)
    → IsBytes bm
    → p / 8 < length bm
    → bitmap_get (bitmap_set bm p v) q
      ≡ (if p == q then (if v == 0 then 0 else 1) else bitmap_get bm q)
unfolding bitmap_set
bitmap_get-bitmap_set bm p q v hb hp = elim (Bool-cases (p / 8 == q / 8)) [
  | inl same ↦ ground (
    arith,
    bitmap_get-digit (bitmap_set bm p v) q,
    bitmap_get-digit bm q,
    get_or-set_self bm (q / 8)
        (if v == 0
          then byte_off (get_or bm (q / 8) 0) (p % 8)
          else byte_on (get_or bm (q / 8) 0) (p % 8))
        0,
    digit-byte_on (get_or bm (q / 8) 0) (p % 8) (get_or-IsBytes bm (q / 8) hb) (omega arith)
        (q % 8),
    digit-byte_off (get_or bm (q / 8) 0) (p % 8) (get_or-IsBytes bm (q / 8) hb) (omega arith)
        (q % 8),
  )
  | inr other ↦ ground (
    arith,
    bitmap_get-digit (bitmap_set bm p v) q,
    bitmap_get-digit bm q,
    get_or-set_ne bm (p / 8) (q / 8)
        (if v == 0
          then byte_off (get_or bm (p / 8) 0) (p % 8)
          else byte_on (get_or bm (p / 8) 0) (p % 8))
        0 (λ e. other_byte p q e other),
  )
]

-- The same for the condition that the code tests.
pub has-bitmap_set :
    (bm : Bitmap) (p q v : ℕ)
    → IsBytes bm
    → p / 8 < length bm
    → has (bitmap_set bm p v) q ≡ (if p == q then not (v == 0) else has bm q)
has-bitmap_set bm p q v hb hp = ground (arith, bitmap_get-bitmap_set bm p q v hb hp)

get_or-memset :
    (bm : Bitmap) (v n i : ℕ)
    → i < length bm
    → get_or (memset bm v n) i 0 ≡ (if ltb i n then v else get_or bm i 0)
unfolding memset
get_or-memset [] v n i h = absurd (omega arith)
get_or-memset (x ∷ xs) v zero i h = ground arith
get_or-memset (x ∷ xs) v (suc n) zero h = ground arith
get_or-memset (x ∷ xs) v (suc n) (suc i) h = ground (arith, get_or-memset xs v n i)

length-memset : (bm : Bitmap) (v n : ℕ) → length (memset bm v n) ≡ length bm
unfolding memset
length-memset [] v n = refl
length-memset (x ∷ xs) v zero = refl
length-memset (x ∷ xs) v (suc n) = ap suc (length-memset xs v n)

memset-IsBytes : (bm : Bitmap) (v n : ℕ) → v < 256 → IsBytes bm → IsBytes (memset bm v n)
unfolding memset
memset-IsBytes [] v n hv h = h
memset-IsBytes (x ∷ xs) v zero hv h = h
memset-IsBytes (x ∷ xs) v (suc n) hv h = (hv, memset-IsBytes xs v n hv h.1)

-- After `bitmap_clear` no slot below n is on, after `bitmap_fill` every one is.
pub has-bitmap_clear :
    (bm : Bitmap) (n q : ℕ)
    → n ≤ 8 * length bm
    → q / 8 < n / 8
    → (has (bitmap_clear bm n) q ≡ false) × (has (bitmap_fill bm n) q ≡ true)
unfolding bitmap_clear bitmap_fill
has-bitmap_clear bm n q hn hq = ground (
  arith,
  bitmap_get-digit (memset bm 0 (n / 8)) q,
  bitmap_get-digit (memset bm 0xff (n / 8)) q,
  get_or-memset bm 0 (n / 8) (q / 8) (omega arith),
  get_or-memset bm 0xff (n / 8) (q / 8) (omega arith),
  full_byte (q % 8) (omega arith),
  empty_byte (q % 8) (omega arith),
)

pub bitmap_clear-IsBytes : (bm : Bitmap) (n : ℕ) → IsBytes bm → IsBytes (bitmap_clear bm n)
unfolding bitmap_clear
bitmap_clear-IsBytes bm n h = memset-IsBytes bm 0 (n / 8) (omega arith) h

pub length-bitmap_clear : (bm : Bitmap) (n : ℕ) → length (bitmap_clear bm n) ≡ length bm
unfolding bitmap_clear
length-bitmap_clear bm n = length-memset bm 0 (n / 8)
