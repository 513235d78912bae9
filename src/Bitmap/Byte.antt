-- ===== src/Bitmap/Byte.antt =====
-- The bits of one byte, checked over all bytes and places.
use agos_memory.Base.{
  ℕ, ◌/◌, ◌%◌, ◌^◌, ◌<◌, ◌≡◌, refl, Bool, true, ◌&&◌, ◌==◌, if◌then◌else◌, ltb, ltb→lt, ==_iff,
  every, every-apply, &&_parts,
}
use agos_memory.Bitmap.{byte_on, byte_off}

abbrev pub digit : ℕ → ℕ → ℕ
digit byte i = byte / 2 ^ i % 2

-- Both ways to write the bit at place `j`, seen at place `i`.
abbrev entry : ℕ → ℕ → ℕ → Bool
entry byte j i =
    (digit (byte_on byte j) i == (if j == i then 1 else digit byte i))
    && (digit (byte_off byte j) i == (if j == i then 0 else digit byte i))

abbrev small : ℕ → ℕ → Bool
small byte j = ltb (byte_on byte j) 256 && ltb (byte_off byte j) 256

table : every (λ byte. every (λ j. small byte j && every (entry byte j) 8) 8) 256 ≡ true
unfolding every byte_on byte_off
table = refl

module _ (byte j : ℕ) (hb : byte < 256) (hj : j < 8) where
  row : (small byte j && every (entry byte j) 8) ≡ true
  row = every-apply _ 8 j hj (every-apply _ 256 byte hb table)

  cell : (i : ℕ) → i < 8 → entry byte j i ≡ true
  cell i hi = every-apply (entry byte j) 8 i hi (&&_parts _ _ row).1

  pub digit-byte_on :
      (i : ℕ) → i < 8 → digit (byte_on byte j) i ≡ (if j == i then 1 else digit byte i)
  digit-byte_on i hi = (==_iff _ _).0 (&&_parts _ _ (cell i hi)).0

  pub digit-byte_off :
      (i : ℕ) → i < 8 → digit (byte_off byte j) i ≡ (if j == i then 0 else digit byte i)
  digit-byte_off i hi = (==_iff _ _).0 (&&_parts _ _ (cell i hi)).1

  pub byte_on-lt : byte_on byte j < 256
  byte_on-lt = ltb→lt _ _ (&&_parts _ _ (&&_parts _ _ row).0).0

  pub byte_off-lt : byte_off byte j < 256
  byte_off-lt = ltb→lt _ _ (&&_parts _ _ (&&_parts _ _ row).0).1
