-- ===== src/Scanner/Read.antt =====
-- Every text and what the scanner makes of it.
use mathlib.Core.Option.{some-injective, none-ne-some}
use agos_memory.Base.{
  ◌≢◌, ℕ, ◌≡◌, refl, ap, sym, inl, inr, true, false, List, [], ◌∷◌, ◌++◌, arith, Bool-cases, ◌==◌,
  ==_iff, ◌∙◌, Option, none, some, subst,
}
use agos_memory.Scanner.{
  Token, TokenType, identifier, digit, lbracket, rbracket, plus, equals, lparen, rparen, comma, eof,
  found, error, is_alpha, is_digit, is_whitespace, is_word, run, past, Scanned, mark, token_at,
  vec0_token_next,
}
use agos_memory.Scanner.Span.{Stops, Passes, run-past, run-Passes, past-Stops}
use agos_memory.Scanner.Lexeme.{IsBlank, IsIdentifier, word_at}

abbrev pub mark_byte : TokenType → Option ℕ
mark_byte identifier = none
mark_byte digit = none
mark_byte lbracket = some 0x5b
mark_byte rbracket = some 0x5d
mark_byte plus = some 0x2b
mark_byte equals = some 0x3d
mark_byte lparen = some 0x28
mark_byte rparen = some 0x29
mark_byte comma = some 0x2c

abbrev pub IsNumber : List ℕ → Type 0
IsNumber [] = ⊥
IsNumber (c ∷ cs) = Passes is_digit (c ∷ cs)

abbrev pub number_at : List ℕ → List ℕ → Scanned
number_at text rest = record {
  rc = found;
  token = record { token_type = digit; text = text };
  rest = rest;
}

-- No token begins with the byte.
abbrev pub BeginsNone : ℕ → Type 0
BeginsNone c =
    ((t : TokenType) → mark_byte t ≢ some c) × (is_alpha c ≡ false) × (is_digit c ≡ false)

-- Blanks to the end; or blanks and then a mark, a longest identifier, a longest number, or a byte
-- that begins no token. At the end and at such a byte the token is left as it was.
pub data Reads (token : Token) : List ℕ → Scanned → Type 0 where
  at_end :
      (gap : List ℕ) → IsBlank gap → Reads token gap (record { rc = eof; token = token; rest = [] })
  a_mark :
      (gap : List ℕ) (t : TokenType) (c : ℕ) (rest : List ℕ)
      → IsBlank gap
      → mark_byte t ≡ some c
      → Reads token (gap ++ c ∷ rest) (mark t rest)
  a_word :
      (gap word rest : List ℕ)
      → IsBlank gap
      → IsIdentifier word
      → Stops is_word rest
      → Reads token (gap ++ (word ++ rest)) (word_at word rest)
  a_number :
      (gap text rest : List ℕ)
      → IsBlank gap
      → IsNumber text
      → Stops is_digit rest
      → Reads token (gap ++ (text ++ rest)) (number_at text rest)
  no_token :
      (gap : List ℕ) (c : ℕ) (rest : List ℕ)
      → IsBlank gap
      → BeginsNone c
      → Reads token (gap ++ c ∷ rest) (record { rc = error; token = token; rest = c ∷ rest })

Reads-cons :
    (token : Token) (c : ℕ) (cs : List ℕ) (s : Scanned)
    → is_whitespace c ≡ true
    → Reads token cs s
    → Reads token (c ∷ cs) s
Reads-cons token c cs s e (at_end gap b) = at_end (c ∷ gap) (e, b)
Reads-cons token c cs s e (a_mark gap t d rest b h) = a_mark (c ∷ gap) t d rest (e, b) h
Reads-cons token c cs s e (a_word gap word rest b h k) = a_word (c ∷ gap) word rest (e, b) h k
Reads-cons token c cs s e (a_number gap text rest b h k) = a_number (c ∷ gap) text rest (e, b) h k
Reads-cons token c cs s e (no_token gap d rest b h) = no_token (c ∷ gap) d rest (e, b) h

Reads-mark :
    (token : Token) (c k : ℕ) (cs : List ℕ) (t : TokenType)
    → (c == k) ≡ true
    → mark_byte t ≡ some k
    → Reads token (c ∷ cs) (mark t cs)
Reads-mark token c k cs t e h = a_mark [] t c cs tt (h ∙ ap some (sym ((==_iff c k).0 e)))

Reads-word :
    (token : Token) (c : ℕ) (cs : List ℕ)
    → is_alpha c ≡ true
    → Reads token (c ∷ cs) (word_at (run is_word (c ∷ cs)) (past is_word (c ∷ cs)))
unfolding run past
Reads-word token c cs e =
    let w : is_word c ≡ true = ground arith in
    rw w (
      subst (λ l. Reads token (c ∷ l) (word_at (c ∷ run is_word cs) (past is_word cs)))
        (sym (run-past is_word cs))
        (a_word [] (c ∷ run is_word cs) (past is_word cs) tt (e, run-Passes is_word cs)
          (past-Stops is_word cs)))

Reads-number :
    (token : Token) (c : ℕ) (cs : List ℕ)
    → is_digit c ≡ true
    → Reads token (c ∷ cs) (number_at (run is_digit (c ∷ cs)) (past is_digit (c ∷ cs)))
unfolding run past
Reads-number token c cs e = rw e (
    subst (λ l. Reads token (c ∷ l) (number_at (c ∷ run is_digit cs) (past is_digit cs)))
      (sym (run-past is_digit cs))
      (a_number [] (c ∷ run is_digit cs) (past is_digit cs) tt (e, run-Passes is_digit cs)
        (past-Stops is_digit cs)))

BeginsNone-tests :
    (c : ℕ)
    → (c == 0x2b) ≡ false
    → (c == 0x5b) ≡ false
    → (c == 0x5d) ≡ false
    → (c == 0x3d) ≡ false
    → (c == 0x28) ≡ false
    → (c == 0x29) ≡ false
    → (c == 0x2c) ≡ false
    → is_alpha c ≡ false
    → is_digit c ≡ false
    → BeginsNone c
BeginsNone-tests c p l r e m n k a d = (go, a, d)
  where
    other : (x y : ℕ) → (x == y) ≡ false → some y ≢ some x
    other x y h g = let f : y ≡ x = some-injective y x g in absurd (ground arith)

    go : (t : TokenType) → mark_byte t ≢ some c
    go identifier = none-ne-some c
    go digit = none-ne-some c
    go lbracket = other c _ l
    go rbracket = other c _ r
    go plus = other c _ p
    go equals = other c _ e
    go lparen = other c _ m
    go rparen = other c _ n
    go comma = other c _ k

-- A text that does not begin with a blank.
Reads-token : (token : Token) (c : ℕ) (cs : List ℕ) → Reads token (c ∷ cs) (token_at token c cs)
unfolding token_at
Reads-token token c cs = elim (Bool-cases (c == 0x2b)) [
  | inl e ↦ rw e (Reads-mark token c 0x2b cs plus e refl)
  | inr n0 ↦ rw n0 (elim (Bool-cases (c == 0x5b)) [
    | inl e ↦ rw e (Reads-mark token c 0x5b cs lbracket e refl)
    | inr n1 ↦ rw n1 (elim (Bool-cases (c == 0x5d)) [
      | inl e ↦ rw e (Reads-mark token c 0x5d cs rbracket e refl)
      | inr n2 ↦ rw n2 (elim (Bool-cases (c == 0x3d)) [
        | inl e ↦ rw e (Reads-mark token c 0x3d cs equals e refl)
        | inr n3 ↦ rw n3 (elim (Bool-cases (c == 0x28)) [
          | inl e ↦ rw e (Reads-mark token c 0x28 cs lparen e refl)
          | inr n4 ↦ rw n4 (elim (Bool-cases (c == 0x29)) [
            | inl e ↦ rw e (Reads-mark token c 0x29 cs rparen e refl)
            | inr n5 ↦ rw n5 (elim (Bool-cases (c == 0x2c)) [
              | inl e ↦ rw e (Reads-mark token c 0x2c cs comma e refl)
              | inr n6 ↦ rw n6 (elim (Bool-cases (is_alpha c)) [
                | inl e ↦ rw e (Reads-word token c cs e)
                | inr a ↦ rw a (elim (Bool-cases (is_digit c)) [
                  | inl e ↦ rw e (Reads-number token c cs e)
                  | inr d ↦ rw d (no_token [] c cs tt (BeginsNone-tests c n0 n1 n2 n3 n4 n5 n6 a d))
                ])
              ])
            ])
          ])
        ])
      ])
    ])
  ])
]

-- Of every text the scanner skips the blanks it begins with and gives the end of the text, or a mark, a
-- longest identifier or a longest number with the text after it, or an error at a byte that begins no
-- token; at the end and at such a byte the token is left as it was.
pub vec0_token_next-Reads :
    (from : List ℕ) (token : Token) → Reads token from (vec0_token_next from token)
unfolding vec0_token_next
vec0_token_next-Reads [] token = at_end [] tt
vec0_token_next-Reads (c ∷ cs) token = elim (Bool-cases (is_whitespace c)) [
  | inl e ↦ rw e (Reads-cons token c cs _ e (vec0_token_next-Reads cs token))
  | inr e ↦ rw e (Reads-token token c cs)
]
