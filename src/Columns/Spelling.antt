-- ===== src/Columns/Spelling.antt =====
-- The keywords of column definitions, as bytes.
use agos_memory.Base.{ℕ, List, [], ◌∷◌}

-- text
abbrev pub word_text : List ℕ
word_text = 0x74 ∷ 0x65 ∷ 0x78 ∷ 0x74 ∷ []

-- int
abbrev pub word_int : List ℕ
word_int = 0x69 ∷ 0x6e ∷ 0x74 ∷ []

-- integer
abbrev pub word_integer : List ℕ
word_integer = 0x69 ∷ 0x6e ∷ 0x74 ∷ 0x65 ∷ 0x67 ∷ 0x65 ∷ 0x72 ∷ []

-- partition
abbrev pub word_partition : List ℕ
word_partition = 0x70 ∷ 0x61 ∷ 0x72 ∷ 0x74 ∷ 0x69 ∷ 0x74 ∷ 0x69 ∷ 0x6f ∷ 0x6e ∷ []

-- key
abbrev pub word_key : List ℕ
word_key = 0x6b ∷ 0x65 ∷ 0x79 ∷ []

-- primary
abbrev pub word_primary : List ℕ
word_primary = 0x70 ∷ 0x72 ∷ 0x69 ∷ 0x6d ∷ 0x61 ∷ 0x72 ∷ 0x79 ∷ []

-- float
abbrev pub word_float : List ℕ
word_float = 0x66 ∷ 0x6c ∷ 0x6f ∷ 0x61 ∷ 0x74 ∷ []

-- double
abbrev pub word_double : List ℕ
word_double = 0x64 ∷ 0x6f ∷ 0x75 ∷ 0x62 ∷ 0x6c ∷ 0x65 ∷ []

-- blob
abbrev pub word_blob : List ℕ
word_blob = 0x62 ∷ 0x6c ∷ 0x6f ∷ 0x62 ∷ []

-- boolean
abbrev pub word_boolean : List ℕ
word_boolean = 0x62 ∷ 0x6f ∷ 0x6f ∷ 0x6c ∷ 0x65 ∷ 0x61 ∷ 0x6e ∷ []

-- bool
abbrev pub word_bool : List ℕ
word_bool = 0x62 ∷ 0x6f ∷ 0x6f ∷ 0x6c ∷ []

-- int64
abbrev pub word_int64 : List ℕ
word_int64 = 0x69 ∷ 0x6e ∷ 0x74 ∷ 0x36 ∷ 0x34 ∷ []

-- integer64
abbrev pub word_integer64 : List ℕ
word_integer64 = 0x69 ∷ 0x6e ∷ 0x74 ∷ 0x65 ∷ 0x67 ∷ 0x65 ∷ 0x72 ∷ 0x36 ∷ 0x34 ∷ []

-- float64
abbrev pub word_float64 : List ℕ
word_float64 = 0x66 ∷ 0x6c ∷ 0x6f ∷ 0x61 ∷ 0x74 ∷ 0x36 ∷ 0x34 ∷ []

-- f64
abbrev pub word_f64 : List ℕ
word_f64 = 0x66 ∷ 0x36 ∷ 0x34 ∷ []
