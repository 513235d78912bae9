-- ===== src/Store/Deletes.antt =====
-- What `vec0Update_Delete` comes to when nothing that it calls fails.
use agos_memory.Base.{ℕ, ◌≡◌, refl, inl, inr, ap, true, false, Option, none, some, arith}
use agos_memory.Store.{Config, Tables, Code, sqlite_empty, Result, ok, err, Faults}
use agos_memory.Store.Delete.{vec0_update_delete}
use agos_memory.Store.Outcome.{Ends}
use agos_memory.Store.Invariant.{IsConfig, IsStore}
use agos_memory.Store.Reclaim.{Removes, vec0_update_delete-Removes}
use agos_memory.Store.Refusals.{Refuses, vec0_update_delete-Refuses}
use agos_memory.Store.History.{Placed}

-- The end of a deletion, by the row that the table has for the number.
abbrev pub Deletes :
    Config → ℕ → Tables → Option (Option (ℕ × ℕ)) → Result (Unit {0}) × Tables × ℕ → Type 0
Deletes p rowid t none r = (r.0 ≡ err sqlite_empty) × (r.1 ≡ t)
Deletes p rowid t (some place) r = (r.0 ≡ ok tt) × Removes p rowid t r.1

module _ (faults : Faults) (quiet : (n : ℕ) → faults n ≡ false) where
  no_fault : (n : ℕ) → faults n ≡ true → ⊥
  no_fault n e = ground (arith, e, quiet n)

  Ends-sure :
      (Q : Unit {0} → Tables → Type 0) (r : Result (Unit {0}) × Tables × ℕ)
      → Ends faults Q r
      → (r.0 ≡ ok tt) × Q tt r.1
  Ends-sure Q (ok tt, u, k) h = (refl, h)
  Ends-sure Q (err c, u, k) h = absurd (no_fault h.0 h.1)

  Refuses-sure :
      (c : Code) (t : Tables) (r : Result (Unit {0}) × Tables × ℕ)
      → Refuses faults c t r
      → (r.0 ≡ err c) × (r.1 ≡ t)
  Refuses-sure c t (ok a, u, k) h = absurd h
  Refuses-sure c t (err d, u, k) (same, inl e) = (ap err e, same)
  Refuses-sure c t (err d, u, k) (same, inr f) = absurd (no_fault f.0 f.1)

  module _ (p : Config) (w : IsConfig p) (t : Tables) (st : IsStore p t) (placed : Placed t) where
    -- In tables that keep the invariant and give every row a place, when no call fails: the deletion of
    -- a row that is there succeeds, keeps the invariant and takes this row and its vectors away and no
    -- other; of a row that is not there it fails with SQLITE_EMPTY and leaves the tables as they were.
    pub vec0_update_delete-Deletes :
        (rowid k : ℕ) → Deletes p rowid t (t.rowids rowid) (vec0_update_delete p faults rowid t k)
    vec0_update_delete-Deletes rowid k = by_row (t.rowids rowid) refl
      where
        by_row :
            (row : Option (Option (ℕ × ℕ)))
            → t.rowids rowid ≡ row
            → Deletes p rowid t row (vec0_update_delete p faults rowid t k)
        by_row none e =
            Refuses-sure sqlite_empty t (vec0_update_delete p faults rowid t k)
              (vec0_update_delete-Refuses p faults rowid t k e)
        by_row (some none) e = absurd (placed rowid e)
        by_row (some (some (c, o))) e =
            Ends-sure (λ _ u. Removes p rowid t u) (vec0_update_delete p faults rowid t k)
              (vec0_update_delete-Removes p faults t w st rowid c o k e)
