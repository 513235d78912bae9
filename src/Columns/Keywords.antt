-- ===== src/Columns/Keywords.antt =====
-- The keywords that the parsers of columns know, as tables, and what a word names in a table.
use agos_memory.Base.{
  ℕ, ◌≡◌, refl, Bool, true, false, ◌||◌, List, [], ◌∷◌, Option, none, some, if◌then◌else◌, length,
}
use agos_memory.Scanner.{Token}
use agos_memory.Columns.{
  ColumnType, text, integer, float, blob, MetadataKind, boolean_kind, integer_kind, float_kind,
  text_kind, key_type, auxiliary_type, metadata_kind,
}
use agos_memory.Columns.Spelling.{
  word_text, word_int, word_integer, word_float, word_double, word_blob, word_boolean, word_bool,
  word_int64, word_integer64, word_float64, word_f64,
}

-- The types that a key can have.
abbrev pub key_types : List (List ℕ × ColumnType)
key_types = (word_text, text) ∷ (word_int, integer) ∷ (word_integer, integer) ∷ []

-- The types that an auxiliary column can have.
abbrev pub auxiliary_types : List (List ℕ × ColumnType)
auxiliary_types =
    (word_text, text)
    ∷ (word_int, integer)
    ∷ (word_integer, integer)
    ∷ (word_float, float)
    ∷ (word_double, float)
    ∷ (word_blob, blob)
    ∷ []

-- The kinds that a metadata column can have.
abbrev pub metadata_kinds : List (List ℕ × MetadataKind)
metadata_kinds =
    (word_boolean, boolean_kind)
    ∷ (word_bool, boolean_kind)
    ∷ (word_int64, integer_kind)
    ∷ (word_integer64, integer_kind)
    ∷ (word_integer, integer_kind)
    ∷ (word_int, integer_kind)
    ∷ (word_float, float_kind)
    ∷ (word_double, float_kind)
    ∷ (word_float64, float_kind)
    ∷ (word_f64, float_kind)
    ∷ (word_text, text_kind)
    ∷ []

-- Two tests with one result are a test each.
if_or :
    {A : Type 0} (a b : Bool) (x y : A)
    → (if a || b then x else y) ≡ (if a then x else (if b then x else y))
if_or true b x y = refl
if_or false b x y = refl

if_or_four :
    {A : Type 0} (a b c d : Bool) (x y : A)
    → (if a || b || c || d then x else y)
      ≡ (if a then x else (if b then x else (if c then x else (if d then x else y))))
if_or_four true b c d x y = refl
if_or_four false true c d x y = refl
if_or_four false false true d x y = refl
if_or_four false false false d x y = refl

module _ (strnicmp : List ℕ → List ℕ → ℕ → Bool) where
  -- Whether a word agrees with a keyword in as many bytes as the word has.
  abbrev pub begins : List ℕ → List ℕ → Bool
  begins word keyword = strnicmp word keyword (length word)

  -- What the first keyword that agrees stands for.
  abbrev pub entry : {A : Type 0} → List (List ℕ × A) → List ℕ → Option A
  entry [] word = none
  entry (line ∷ table) word =
      if strnicmp word line.0 (length word) then some line.1 else entry table word

  pub key_type-entry : (t : Token) → key_type strnicmp t ≡ entry key_types t.text
  unfolding key_type
  key_type-entry t = rw (if_or (begins t.text word_int) (begins t.text word_integer)) refl

  pub auxiliary_type-entry : (t : Token) → auxiliary_type strnicmp t ≡ entry auxiliary_types t.text
  unfolding auxiliary_type
  auxiliary_type-entry t =
      rw
        (
          if_or (begins t.text word_int) (begins t.text word_integer),
          if_or (begins t.text word_float) (begins t.text word_double),
        )
        refl

  pub metadata_kind-entry : (t : Token) → metadata_kind strnicmp t ≡ entry metadata_kinds t.text
  unfolding metadata_kind
  metadata_kind-entry t =
      rw
        (
          if_or (begins t.text word_boolean) (begins t.text word_bool),
          if_or_four (begins t.text word_int64) (begins t.text word_integer64)
              (begins t.text word_integer) (begins t.text word_int),
          if_or_four (begins t.text word_float) (begins t.text word_double)
              (begins t.text word_float64) (begins t.text word_f64),
        )
        refl
