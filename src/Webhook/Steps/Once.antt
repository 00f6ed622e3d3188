-- ===== src/Webhook/Steps/Once.antt =====
-- Handlers that create an entity unless it is there.
use api_payment.Common.{◌≡◌, ◌≢◌, refl, sym, ap, ◌∙◌, Bool, true, Option, none, some, ◌⊎◌, inl, inr}
use api_payment.Common.Exec.{Result, ok, throw, Exception, Exec, continue, pure, ◌>>=◌}
use api_payment.Platform.{Row, TypeOrm, IsLawful}
use api_payment.Database.{Db, Repository, find_one, insert}
use api_payment.Webhook.Steps.{if_found}

module _ (o : TypeOrm) {E : Type 0} (repository : Repository o E) (p : E → Bool) where
  -- A row that fits may be found.
  abbrev pub IsStored : Db o → Type 0
  IsStored db = o.find_one E p (repository.table db) ≢ ok none

  -- The run threw, and no other table than this one has changed.
  abbrev pub HasFailed : Db o → Result (Unit {0}) × Db o → Type 0
  HasFailed db run =
      ((x : Exception) × (run.0 ≡ throw x))
      × ((t : o.Table E) × (run.1 ≡ repository.with_table t db))

  -- The run did nothing, or threw before it stored a row, or a row is found after it.
  abbrev pub IsOnce : Db o → Result (Unit {0}) × Db o → Type 0
  IsOnce db run = (run ≡ (ok tt, db)) ⊎ (HasFailed db run ⊎ IsStored run.1)

  -- `if (existing) continue;` before the body of a handler
  abbrev pub once : Exec (Db o) (Unit {0}) → Exec (Db o) (Unit {0})
  once create = do existing ← find_one o repository p; if_found (λ row. pure tt) create existing

  skipped :
      (create : Exec (Db o) (Unit {0})) (found : Result (Option (Row E))) (db : Db o)
      → found ≢ ok none
      → (continue found (if_found (λ row. pure tt) create) db).1 ≡ db
  skipped create (ok none) db h = absurd (h refl)
  skipped create (ok (some row)) db h = refl
  skipped create (throw x) db h = refl

  module _ (put : (db : Db o) → repository.with_table (repository.table db) db ≡ db) where
    failed_at_once : (x : Exception) (db : Db o) → HasFailed db (throw x, db)
    failed_at_once x db = ((x, refl), (repository.table db, sym (put db)))

    created :
        (create : Exec (Db o) (Unit {0})) (found : Result (Option (Row E))) (db : Db o)
        → IsOnce db (create db)
        → IsOnce db (continue found (if_found (λ row. pure tt) create) db)
    created create (ok none) db h = h
    created create (ok (some row)) db h = inl refl
    created create (throw x) db h = inr (inl (failed_at_once x db))

    -- A handler with such a body writes nothing when it runs again, unless it threw the first time
    -- before it had stored a row.
    pub once-again :
        (create : Exec (Db o) (Unit {0})) (db : Db o)
        → IsOnce db (create db)
        → let run = once create db in ((once create run.1).1 ≡ run.1) ⊎ HasFailed db run
    once-again create db h = elim (created create (o.find_one E p (repository.table db)) db h) [
      | inl same ↦ inl (ap (λ run. (once create run.1).1) same)
      | inr (inl failed) ↦ inr failed
      | inr (inr stored) ↦ inl (skipped create _ _ stored)
    ]

    pub once-continue :
        {A : Type 0} (r : Result A) (f : A → Exec (Db o) (Unit {0})) (db : Db o)
        → ((a : A) → IsOnce db (f a db))
        → IsOnce db (continue r f db)
    once-continue (ok a) f db h = h a
    once-continue (throw x) f db h = inr (inl (failed_at_once x db))

    -- A step that reads comes before.
    pub once-read :
        {A : Type 0} (r : Result A × Db o) (f : A → Exec (Db o) (Unit {0})) (db : Db o)
        → r.1 ≡ db
        → ((a : A) → IsOnce db (f a db))
        → IsOnce db (continue r.0 f r.1)
    once-read (ok a, u) f db same h = rw same (h a)
    once-read (throw x, u) f db same h = rw same (inr (inl (failed_at_once x db)))

  module _ (laws : IsLawful o)
      (get : (t : o.Table E) (db : Db o) → repository.table (repository.with_table t db) ≡ t) where
    inserted :
        (e : E) (rest : Row E → Exec (Db o) (Unit {0})) (db : Db o)
        (stored : Result (Row E) × o.Table E)
        → o.insert E e (repository.table db) ≡ stored
        → p e ≡ true
        → ((row : Row E) (db : Db o) → repository.table (rest row db).1 ≡ repository.table db)
        → IsOnce db (continue stored.0 rest (repository.with_table stored.1 db))
    inserted e rest db (ok row, t) stored fits leaves = inr (
        inr λ missing. laws.insert_found E p e _ t row stored fits (
          ap (o.find_one E p) (sym (leaves row (repository.with_table t db) ∙ get t db)) ∙ missing))
    inserted e rest db (throw x, t) stored fits leaves = inr (inl ((x, refl), (t, refl)))

    -- The body that inserts a row that fits and then leaves the table alone.
    pub insert-once :
        (e : E) (rest : Row E → Exec (Db o) (Unit {0})) (db : Db o)
        → p e ≡ true
        → ((row : Row E) (db : Db o) → repository.table (rest row db).1 ≡ repository.table db)
        → IsOnce db ((insert o repository e >>= rest) db)
    insert-once e rest db = inserted e rest db _ refl
