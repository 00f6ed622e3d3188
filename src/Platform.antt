-- ===== src/Platform.antt =====
-- What the program takes from outside: TypeORM over a database, and the parsing of dates by
-- JavaScript's `Date` and by date-fns. Each is a parameter; what the theorems rely on is a record of
-- laws, which states documented behaviour.
pub mod Dates
pub mod Financial
pub mod Memory
pub mod Manager
pub mod Redis
use api_payment.Common.{String, ◌≡◌, ◌≢◌, Bool, true, false, Option, none, some}
use api_payment.Common.Exec.{Exception, Result, ok, throw}

-- A stored entity: its columns, and the uuid that the database gave it.
pub record Row (E : Type 0) : Type 0 where
  pub id : String
  pub fields : E

-- One table of each entity. A `Table` is the engine's own: it may hold more than the rows, such as
-- which of the next writes fail, so that a write may fail once and succeed when it is tried again.
-- A `where` object is the test of a row's columns that it stands for.
pub record TypeOrm : Type 1 where
  pub Table : Type 0 → Type 0
  -- `findOne({ where })`
  pub find_one : (E : Type 0) → (E → Bool) → Table E → Result (Option (Row E))
  -- `findOne({ where, order: { createdAt: 'DESC' } })`
  pub find_last : (E : Type 0) → (E → Bool) → Table E → Result (Option (Row E))
  -- `save(create(fields))`
  pub insert : (E : Type 0) → E → Table E → Result (Row E) × Table E
  -- `save(row)` of a row that was found
  pub update : (E : Type 0) → Row E → Table E → Result (Row E) × Table E

-- Documented behaviour of `findOne` and `save`, where rows are created at different times.
pub record IsLawful (o : TypeOrm) : Type 1 where
  -- What is found fits the `where` object.
  pub found_fits :
      (E : Type 0) (p : E → Bool) (t : o.Table E) (r : Row E)
      → o.find_one E p t ≡ ok (some r)
      → p r.fields ≡ true
  -- A saved entity has each column `c` that it was created with and that is always given.
  pub insert_column :
      (E : Type 0) (c : E → String) (e : E) (t t' : o.Table E) (r : Row E)
      → o.insert E e t ≡ (ok r, t')
      → c r.fields ≡ c e
  -- An entity that was saved just now is the latest of those that fit the same test.
  pub insert_last :
      (E : Type 0) (p : E → Bool) (e : E) (t t' : o.Table E) (r : Row E) (found : Option (Row E))
      → o.insert E e t ≡ (ok r, t')
      → p e ≡ true
      → o.find_last E p t' ≡ ok found
      → found ≡ some r
  -- An entity that does not fit the test changes nothing for it.
  pub insert_other :
      (E : Type 0) (p : E → Bool) (e : E) (t t' : o.Table E) (r : Row E)
      → o.insert E e t ≡ (ok r, t')
      → p e ≡ false
      → o.find_last E p t' ≡ o.find_last E p t
  -- After an insertion, a row that fits is found.
  pub insert_found :
      (E : Type 0) (p : E → Bool) (e : E) (t t' : o.Table E) (r : Row E)
      → o.insert E e t ≡ (ok r, t')
      → p e ≡ true
      → o.find_one E p t' ≢ ok none
  -- After an update, a row that fitted a `where` object and still does is found. (A column that is
  -- undefined is not written, so both are asked.)
  pub update_found :
      (E : Type 0) (p : E → Bool) (r s : Row E) (e : E) (t t' : o.Table E)
      → o.find_one E p t ≡ ok (some r)
      → o.update E (record r { fields = e }) t ≡ (ok s, t')
      → p e ≡ true
      → o.find_one E p t' ≢ ok none
  -- After a failed write every search answers as before. Nothing is said of the next write, which may
  -- well succeed.
  pub insert_failed :
      (E : Type 0) (p : E → Bool) (e : E) (t t' : o.Table E) (x : Exception)
      → o.insert E e t ≡ (throw x, t')
      → (o.find_one E p t' ≡ o.find_one E p t) × (o.find_last E p t' ≡ o.find_last E p t)
