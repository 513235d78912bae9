-- ===== src/Columns/Metadata.antt =====
-- Metadata columns: the parser that tests both the result and the token of each scan.
use mathlib.Core.Option.{some-injective, none-ne-some}
use agos_memory.Base.{
  ℕ, ◌≡◌, ◌↔◌, refl, ap, sym, ◌∙◌, subst, Bool, true, false, not, ◌||◌, List, [], ◌∷◌, ◌++◌, Option,
  none, some, if◌then◌else◌, arith,
}
use agos_memory.Scanner.{
  Token, TokenType, identifier, digit, lbracket, rbracket, plus, equals, lparen, rparen, comma,
  TokenResult, eof, found, error, Scanned, is_word, vec0_token_next, vec0_scanner_next, moved,
}
use agos_memory.Scanner.Span.{Stops}
use agos_memory.Scanner.Lexeme.{IsBlank, IsIdentifier, word_at}
use agos_memory.Scanner.Read.{
  Reads, mark_byte, at_end, a_mark, a_word, a_number, no_token, vec0_token_next-Reads,
}
use agos_memory.Columns.{
  Parsed, absent, failed, parsed, MetadataKind, is_found, is_identifier, metadata_kind,
  metadata_tests, vec0_parse_metadata_column_definition, following,
}
use agos_memory.Columns.Keywords.{entry, metadata_kinds, metadata_kind-entry}
use agos_memory.Columns.Words.{lay, IsLaid, word, read_word, scan_two-eq}

-- The text is blanks, the identifier of the token, and the rest.
record Finds (from : List ℕ) (s : Scanned) : Type 0 where
  pub gap : List ℕ
  pub splits : from ≡ gap ++ (s.token.text ++ s.rest)
  pub blank : IsBlank gap
  pub names : IsIdentifier s.token.text
  pub stops : Stops is_word s.rest

-- No identifier is a mark.
mark_word :
    (t : TokenType) (c : ℕ)
    → mark_byte t ≡ some c
    → is_identifier (record { token_type = t; text = [] }) ≡ true
    → ⊥
mark_word identifier c e h = none-ne-some c e
mark_word digit c e h = ground arith
mark_word lbracket c e h = ground arith
mark_word rbracket c e h = ground arith
mark_word plus c e h = ground arith
mark_word equals c e h = ground arith
mark_word lparen c e h = ground arith
mark_word rparen c e h = ground arith
mark_word comma c e h = ground arith

moved_found :
    (rc : TokenResult) (from rest : List ℕ) → is_found rc ≡ true → moved rc from rest ≡ rest
moved_found found from rest h = refl
moved_found eof from rest h = absurd (ground arith)
moved_found error from rest h = absurd (ground arith)

Finds-Reads :
    (from : List ℕ) (token : Token) (s : Scanned)
    → Reads token from s
    → is_found s.rc ≡ true
    → is_identifier s.token ≡ true
    → Finds from s
Finds-Reads from token s (at_end gap b) h k = absurd (ground arith)
Finds-Reads from token s (a_mark gap t c rest b e) h k = absurd (mark_word t c e k)
Finds-Reads from token s (a_word gap w rest b i e) h k = record {
  gap = gap;
  splits = refl;
  blank = b;
  names = i;
  stops = e;
}
Finds-Reads from token s (a_number gap t rest b i e) h k = absurd (ground arith)
Finds-Reads from token s (no_token gap c rest b e) h k = absurd (ground arith)

Finds-scanner_next :
    (from : List ℕ) (token : Token)
    → is_found (vec0_scanner_next from token).rc ≡ true
    → is_identifier (vec0_scanner_next from token).token ≡ true
    → Finds from (vec0_scanner_next from token)
unfolding vec0_scanner_next
Finds-scanner_next from token h k =
    go (vec0_token_next from token) h
      (Finds-Reads from token _ (vec0_token_next-Reads from token) h k)
  where
    go :
        (s : Scanned)
        → is_found s.rc ≡ true
        → Finds from s
        → Finds from (record s { rest = moved s.rc from s.rest })
    go s h f =
        subst (λ r. Finds from (record s { rest = r })) (sym (moved_found s.rc from s.rest h)) f

module _ (strnicmp : List ℕ → List ℕ → ℕ → Bool) where
  -- What it takes for both tests to pass.
  record Passed (a b : Scanned) (name : List ℕ) (kind : MetadataKind) : Type 0 where
    pub first : is_found a.rc ≡ true
    pub first_word : is_identifier a.token ≡ true
    pub second : is_found b.rc ≡ true
    pub second_word : is_identifier b.token ≡ true
    pub kind_of : metadata_kind strnicmp b.token ≡ some kind
    pub name_of : a.token.text ≡ name

  abbrev value : {A : Type 0} → Parsed A → Option A
  value absent = none
  value failed = none
  value (parsed a) = some a

  metadata_tests-Passed :
      (a b : Scanned) (name : List ℕ) (kind : MetadataKind)
      → metadata_tests strnicmp a b ≡ parsed (name, kind)
      → Passed a b name kind
  unfolding metadata_tests
  metadata_tests-Passed a b name kind e =
      go (is_found a.rc) (is_identifier a.token) (is_found b.rc) (is_identifier b.token)
        (metadata_kind strnicmp b.token) refl refl refl refl refl e
    where
      go :
          (p q r s : Bool) (k : Option MetadataKind)
          → is_found a.rc ≡ p
          → is_identifier a.token ≡ q
          → is_found b.rc ≡ r
          → is_identifier b.token ≡ s
          → metadata_kind strnicmp b.token ≡ k
          → (if not p || not q
              then absent
              else (if not r || not s
                  then absent
                  else (elim k as (λ z. Parsed (List ℕ × MetadataKind)) [
                    | none ↦ absent
                    | some kind ↦ parsed (a.token.text, kind)
                  ])))
            ≡ parsed (name, kind)
          → Passed a b name kind
      go false q r s k pe qe re se ke e = absurd (none-ne-some _ (ap value e))
      go true false r s k pe qe re se ke e = absurd (none-ne-some _ (ap value e))
      go true true false s k pe qe re se ke e = absurd (none-ne-some _ (ap value e))
      go true true true false k pe qe re se ke e = absurd (none-ne-some _ (ap value e))
      go true true true true none pe qe re se ke e = absurd (none-ne-some _ (ap value e))
      go true true true true (some t) pe qe re se ke e =
          let pair = some-injective (a.token.text, t) (name, kind) (ap value e) in
          record {
            first = pe;
            first_word = qe;
            second = re;
            second_word = se;
            kind_of = ke ∙ ap (λ z. some z.1) pair;
            name_of = ap (λ z. z.0) pair;
          }

  -- The text is two words and more, the first the name, and the second spells the kind.
  abbrev pub Defines : List ℕ → List ℕ → MetadataKind → Type 0
  Defines source name kind =
      (gap : List ℕ) × (w : List ℕ × List ℕ) × (tail : List ℕ) × (source
        ≡ lay ((gap, name) ∷ w ∷ []) tail)
      × IsLaid ((gap, name) ∷ w ∷ []) tail
      × (entry strnicmp metadata_kinds w.1 ≡ some kind)

  metadata-Defines :
      (source : List ℕ) (token : Token) (name : List ℕ) (kind : MetadataKind)
      → vec0_parse_metadata_column_definition strnicmp source token ≡ parsed (name, kind)
      → Defines source name kind
  unfolding vec0_parse_metadata_column_definition
  metadata-Defines source token name kind e =
      let a = vec0_scanner_next source token in
      let b = following a in
      let p = metadata_tests-Passed a b name kind e in
      let f = Finds-scanner_next source token p.first p.first_word in
      let g = Finds-scanner_next a.rest a.token p.second p.second_word in
      subst (λ n. Defines source n kind) p.name_of
        (
          f.gap,
          (g.gap, b.token.text),
          b.rest,
          f.splits ∙ ap (λ r. f.gap ++ (a.token.text ++ r)) g.splits,
          (
            f.blank,
            f.names,
            subst (Stops is_word) g.splits f.stops,
            (g.blank, g.names, g.stops, tt),
          ),
          sym (metadata_kind-entry strnicmp b.token) ∙ p.kind_of,
        )

  Defines-metadata :
      (source : List ℕ) (token : Token) (name : List ℕ) (kind : MetadataKind)
      → Defines source name kind
      → vec0_parse_metadata_column_definition strnicmp source token ≡ parsed (name, kind)
  unfolding vec0_parse_metadata_column_definition metadata_tests
  Defines-metadata source token name kind d =
      let read =
        scan_two-eq (metadata_tests strnicmp) _ (word_at name (lay (d.1 ∷ []) d.2))
          (word_at d.1.1 d.2)
          (ap (λ s. vec0_scanner_next s token) d.3 ∙ read_word (d.0, name) (d.1 ∷ []) d.2 token d.4)
          (read_word d.1 [] d.2 (word name) d.4.3) in
      read ∙ rw (metadata_kind-entry strnicmp (word d.1.1) ∙ d.5) refl

  -- A text is a metadata column of this name and kind exactly when, past blanks, it begins with the
  -- name, a longest identifier, and then, past blanks, with a longest identifier whose first match in
  -- the table of keywords, compared in as many bytes as the identifier has, stands for the kind.
  pub vec0_parse_metadata_column_definition-Defines :
      (source : List ℕ) (token : Token) (name : List ℕ) (kind : MetadataKind)
      → (vec0_parse_metadata_column_definition strnicmp source token ≡ parsed (name, kind))
        ↔ Defines source name kind
  vec0_parse_metadata_column_definition-Defines source token name kind =
      (metadata-Defines source token name kind, Defines-metadata source token name kind)
