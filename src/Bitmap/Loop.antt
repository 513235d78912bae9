-- ===== src/Bitmap/Loop.antt =====
-- Loops that decide each slot of a bitmap in turn.
use agos_memory.Base.{
  [], ◌∷◌, ap, ℕ, zero, suc, ◌+◌, ◌*◌, ◌≤◌, ◌<◌, ◌≡◌, refl, Bool, true, false, not, ◌&&◌, arith,
  ◌==◌, ltb, leb, if◌then◌else◌, length,
}
use agos_memory.Bitmap.{
  Bitmap, bitmap_set, bitmap_clear, bitmap_and_inplace, for_slots, has, memcpy,
}
use agos_memory.Bitmap.Access.{
  IsBytes, has-bitmap_set, bitmap_set-IsBytes, length-bitmap_set, bitmap_clear-IsBytes,
  length-bitmap_clear,
}
use agos_memory.Bitmap.Meet.{bitmap_and_inplace-IsBytes, length-bitmap_and_inplace}

-- A bitmap with a place for each of n slots.
pub record Fits (n : ℕ) (b : Bitmap) : Type 0 where
  pub bytes : IsBytes b
  pub room : n ≤ 8 * length b

bitmap_set-Fits : (n p v : ℕ) (b : Bitmap) → Fits n b → Fits n (bitmap_set b p v)
bitmap_set-Fits n p v b f = record {
  bytes = bitmap_set-IsBytes b p v f.bytes;
  room = omega (arith, f.room, length-bitmap_set b p v);
}

pub bitmap_clear-Fits : (n m : ℕ) (b : Bitmap) → Fits n b → Fits n (bitmap_clear b m)
bitmap_clear-Fits n m b f = record {
  bytes = bitmap_clear-IsBytes b m f.bytes;
  room = omega (arith, f.room, length-bitmap_clear b m);
}

pub bitmap_and_inplace-Fits :
    (n m : ℕ) (b c : Bitmap) → Fits n b → Fits n (bitmap_and_inplace b c m)
bitmap_and_inplace-Fits n m b c f = record {
  bytes = bitmap_and_inplace-IsBytes b c m f.bytes;
  room = omega (arith, f.room, length-bitmap_and_inplace b c m);
}

-- A guarded write keeps the shape.
pub guarded_set-Fits :
    (n i v : ℕ) (c : Bool) (b : Bitmap) → Fits n b → Fits n (if c then bitmap_set b i v else b)
guarded_set-Fits n i v true b f = bitmap_set-Fits n i v b f
guarded_set-Fits n i v false b f = f

pub has-guarded_set :
    (n i j v : ℕ) (c : Bool) (b : Bitmap)
    → i < n
    → Fits n b
    → has (if c then bitmap_set b i v else b) j ≡ (if i == j && c then not (v == 0) else has b j)
has-guarded_set n i j v true b l f = ground (arith, has-bitmap_set b i j v f.bytes, f.room)
has-guarded_set n i j v false b l f = ground arith

-- The round for slot i replaces that slot's bit by `f i` of it, and leaves the others.
pub record Decides (n : ℕ) (f : ℕ → Bool → Bool) (i : ℕ) (bm bm' : Bitmap) : Type 0 where
  pub fits : Fits n bm'
  pub slots : (j : ℕ) → has bm' j ≡ (if i == j then f j (has bm j) else has bm j)

pub record DecidesAll (n : ℕ) (f : ℕ → Bool → Bool) (i : ℕ) (bm bm' : Bitmap) : Type 0 where
  pub fits : Fits n bm'
  pub slots : (j : ℕ) → has bm' j ≡ (if leb i j && ltb j n then f j (has bm j) else has bm j)

pub for_slots-DecidesAll :
    (n : ℕ) (body : ℕ → Bitmap → Bitmap) (f : ℕ → Bool → Bool)
    → ((i : ℕ) (bm : Bitmap) → i < n → Fits n bm → Decides n f i bm (body i bm))
    → (left i : ℕ) (bm : Bitmap) → i + left ≡ n
    → Fits n bm
    → DecidesAll n f i bm (for_slots body left i bm)
unfolding for_slots
for_slots-DecidesAll n body f h zero i bm e fit = record { fits = fit; slots = λ j. ground arith }
for_slots-DecidesAll n body f h (suc left) i bm e fit =
    let one = h i bm (omega arith) fit in
    let more = for_slots-DecidesAll n body f h left (i + 1) (body i bm) (omega arith) one.fits in
    record { fits = more.fits; slots = λ j. ground (arith, one.slots j, more.slots j) }

-- A copy of the whole bitmap.
pub memcpy-all :
    (base from : Bitmap) (n : ℕ) → length base ≡ n → length from ≡ n → memcpy base from n ≡ from
unfolding memcpy
memcpy-all [] [] n e h = refl
memcpy-all [] (y ∷ ys) n e h = absurd (omega arith)
memcpy-all (x ∷ xs) [] zero e h = absurd (omega arith)
memcpy-all (x ∷ xs) [] (suc n) e h = absurd (omega arith)
memcpy-all (x ∷ xs) (y ∷ ys) zero e h = absurd (omega arith)
memcpy-all (x ∷ xs) (y ∷ ys) (suc n) e h =
    ap (◌∷◌ y) (memcpy-all xs ys n (omega arith) (omega arith))
