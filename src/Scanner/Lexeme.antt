-- ===== src/Scanner/Lexeme.antt =====
-- What the scanner finds at the head of a text.
use agos_memory.Base.{ℕ, ◌≡◌, refl, ap, true, false, List, [], ◌∷◌, ◌++◌, arith, ◌==◌, ◌∙◌}
use agos_memory.Scanner.{
  Token, identifier, equals, plus, eof, found, is_alpha, is_whitespace, is_word, Scanned, mark,
  token_at, vec0_token_next, moved, vec0_scanner_next,
}
use agos_memory.Scanner.Span.{Stops, Passes, run-append, past-append}

abbrev pub IsBlank : List ℕ → Type 0
IsBlank cs = Passes is_whitespace cs

-- A letter, then letters, digits and underscores.
abbrev pub IsIdentifier : List ℕ → Type 0
IsIdentifier [] = ⊥
IsIdentifier (c ∷ cs) = (is_alpha c ≡ true) × Passes is_word cs

-- Blanks before a token are passed over.
vec0_token_next-blank :
    (gap from : List ℕ) (token : Token)
    → IsBlank gap
    → vec0_token_next (gap ++ from) token ≡ vec0_token_next from token
unfolding vec0_token_next
vec0_token_next-blank [] from token b = refl
vec0_token_next-blank (c ∷ gap) from token b = rw (b.0) (vec0_token_next-blank gap from token b.1)

abbrev pub word_at : List ℕ → List ℕ → Scanned
word_at word rest = record {
  rc = found;
  token = record { token_type = identifier; text = word };
  rest = rest;
}

alpha_is_word : (c : ℕ) → is_alpha c ≡ true → is_word c ≡ true
alpha_is_word c h = ground arith

-- A letter is none of the other bytes that the scanner tests for.
alpha_other :
    (c : ℕ)
    → is_alpha c ≡ true
    → (is_whitespace c ≡ false)
      × ((c == 0x2b) ≡ false)
      × ((c == 0x5b) ≡ false)
      × ((c == 0x5d) ≡ false)
      × ((c == 0x3d) ≡ false)
      × ((c == 0x28) ≡ false)
      × ((c == 0x29) ≡ false)
      × ((c == 0x2c) ≡ false)
alpha_other c h = (
  ground arith,
  ground arith,
  ground arith,
  ground arith,
  ground arith,
  ground arith,
  ground arith,
  ground arith,
)

vec0_token_next-word :
    (word rest : List ℕ) (token : Token)
    → IsIdentifier word
    → Stops is_word rest
    → vec0_token_next (word ++ rest) token ≡ word_at word rest
unfolding vec0_token_next token_at
vec0_token_next-word [] rest token i s = absurd i
vec0_token_next-word (c ∷ word) rest token i s =
    let o = alpha_other c i.0 in
    rw
      (
        o.0,
        o.1,
        o.2,
        o.3,
        o.4,
        o.5,
        o.6,
        o.7,
        i.0,
        run-append is_word (c ∷ word) rest (alpha_is_word c i.0, i.1) s,
        past-append is_word (c ∷ word) rest (alpha_is_word c i.0, i.1) s,
      )
      refl

-- The scanner reads the identifier after the blanks, and is left behind it.
pub vec0_scanner_next-word :
    (gap word rest : List ℕ) (token : Token)
    → IsBlank gap
    → IsIdentifier word
    → Stops is_word rest
    → vec0_scanner_next (gap ++ (word ++ rest)) token ≡ word_at word rest
unfolding vec0_scanner_next
vec0_scanner_next-word gap word rest token b i s =
    ap {A = Scanned} {B = Scanned}
      (λ r. record r { rest = moved r.rc (gap ++ (word ++ rest)) r.rest })
      (vec0_token_next-blank gap (word ++ rest) token b ∙ vec0_token_next-word word rest token i s)

vec0_token_next-at_end :
    (gap : List ℕ) (token : Token)
    → IsBlank gap
    → vec0_token_next gap token ≡ record { rc = eof; token = token; rest = [] }
unfolding vec0_token_next
vec0_token_next-at_end [] token b = refl
vec0_token_next-at_end (c ∷ gap) token b = rw (b.0) (vec0_token_next-at_end gap token b.1)

-- At the end the token is left as it was, and so is the scanner.
pub vec0_scanner_next-at_end :
    (gap : List ℕ) (token : Token)
    → IsBlank gap
    → vec0_scanner_next gap token ≡ record { rc = eof; token = token; rest = gap }
unfolding vec0_scanner_next
vec0_scanner_next-at_end gap token b =
    ap {A = Scanned} {B = Scanned} (λ r. record r { rest = moved r.rc gap r.rest })
      (vec0_token_next-at_end gap token b)

-- The scanner reads a `=` or a `+` after the blanks.
pub vec0_scanner_next-mark :
    (gap rest : List ℕ) (token : Token)
    → IsBlank gap
    → (vec0_scanner_next (gap ++ 0x3d ∷ rest) token ≡ mark equals rest)
      × (vec0_scanner_next (gap ++ 0x2b ∷ rest) token ≡ mark plus rest)
unfolding vec0_scanner_next vec0_token_next token_at
vec0_scanner_next-mark gap rest token b = (past_gap 0x3d, past_gap 0x2b)
  where
    past_gap :
        (c : ℕ)
        → (let s = vec0_token_next (gap ++ c ∷ rest) token in
            Path Scanned
              (record s { rest = moved s.rc (gap ++ c ∷ rest) s.rest })
              (let t = vec0_token_next (c ∷ rest) token in
                record t { rest = moved t.rc (gap ++ c ∷ rest) t.rest }))
    past_gap c =
        ap {A = Scanned} {B = Scanned}
          (λ r. record r { rest = moved r.rc (gap ++ c ∷ rest) r.rest })
          (vec0_token_next-blank gap (c ∷ rest) token b)
