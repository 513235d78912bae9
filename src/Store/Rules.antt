-- ===== src/Store/Rules.antt =====
-- How a sequence goes on after one of the shared calls.
use agos_memory.Base.{
  ℕ, ◌+◌, ◌≤◌, ◌<◌, ◌≡◌, refl, arith, Bool, true, false, Option, some, List, ltb, ◌==◌,
}
use agos_memory.Store.{Config, Chunk, Tables, Code, Call, resume, raise_if, from_row, Faults}
use agos_memory.Store.Steps.{chunk_row, vectors_row, sqlite3_malloc, blob_reach}
use agos_memory.Store.Outcome.{Ends}

-- A test that ends a sequence.
pub last_if :
    (faults : Faults) (Q : Unit {0} → Tables → Type 0) (b : Bool) (c : Code) (t : Tables) (k : ℕ)
    → b ≡ false
    → Q tt t
    → Ends faults Q (raise_if b c t k)
last_if faults Q b c t k e h = rw e h

module _ (p : Config) (faults : Faults) {B : Type 0} (Q : B → Tables → Type 0) where
  pub after_if :
      (f : Unit {0} → Call B) (b : Bool) (c : Code) (t : Tables) (k : ℕ)
      → b ≡ false
      → Ends faults Q (f tt t k)
      → Ends faults Q (resume f (raise_if b c t k))
  after_if f b c t k e h = rw e h

  pub after_row :
      {A : Type 0} (f : A → Call B) (c : Code) (row : Option A) (a : A) (t : Tables) (k : ℕ)
      → row ≡ some a
      → Ends faults Q (f a t k)
      → Ends faults Q (resume f (from_row c row t k))
  after_row f c row a t k e h = rw e h

  pub after_chunk_row :
      (f : Chunk → Call B) (chunk_id : ℕ) (c : Code) (t : Tables) (k : ℕ) (chunk : Chunk)
      → t.chunks chunk_id ≡ some chunk
      → Ends faults Q (f chunk t (k + 1))
      → Ends faults Q (resume f (chunk_row p faults chunk_id c t k))
  after_chunk_row f chunk_id c t k chunk e h = choose (faults k) refl
    where
      choose :
          (b : Bool) → faults k ≡ b → Ends faults Q (resume f (chunk_row p faults chunk_id c t k))
      choose true g = rw g (k, g, omega arith)
      choose false g = rw (g, e) h

  pub after_vectors_row :
      (f : List ℕ → Call B) (i chunk_id : ℕ) (c : Code) (t : Tables) (k : ℕ) (blob : List ℕ)
      → t.vectors i chunk_id ≡ some blob
      → Ends faults Q (f blob t (k + 1))
      → Ends faults Q (resume f (vectors_row p faults i chunk_id c t k))
  after_vectors_row f i chunk_id c t k blob e h = choose (faults k) refl
    where
      choose :
          (b : Bool)
          → faults k ≡ b
          → Ends faults Q (resume f (vectors_row p faults i chunk_id c t k))
      choose true g = rw g (k, g, omega arith)
      choose false g = rw (g, e) h

  pub after_malloc :
      (f : Unit {0} → Call B) (n : ℕ) (c : Code) (t : Tables) (k : ℕ)
      → 0 < n
      → Ends faults Q (f tt t (k + 1))
      → Ends faults Q (resume f (sqlite3_malloc p faults n c t k))
  after_malloc f n c t k l h = choose (faults k) refl
    where
      some_of : (n == 0) ≡ false
      some_of = ground (arith, l)

      choose :
          (b : Bool) → faults k ≡ b → Ends faults Q (resume f (sqlite3_malloc p faults n c t k))
      choose true g = rw (some_of, g) (k, g, omega arith)
      choose false g = rw (some_of, g) h

  pub after_reach :
      (f : Unit {0} → Call B) (size n offset : ℕ) (c : Code) (t : Tables) (k : ℕ)
      → offset + n ≤ size
      → Ends faults Q (f tt t (k + 1))
      → Ends faults Q (resume f (blob_reach p faults size n offset c t k))
  after_reach f size n offset c t k l h = choose (faults k) refl
    where
      reached : ltb size (offset + n) ≡ false
      reached = ground (arith, l)

      choose :
          (b : Bool)
          → faults k ≡ b
          → Ends faults Q (resume f (blob_reach p faults size n offset c t k))
      choose true g = rw (reached, g) (k, g, omega arith)
      choose false g = rw (reached, g) h
