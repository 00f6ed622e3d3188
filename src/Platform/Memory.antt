-- ===== src/Platform/Memory.antt =====
-- A database in memory, on lists: the engine that the examples run on, and the proof that it behaves
-- as TypeORM is documented to. New rows go to the front.
use Prim.Native.String.{◌++◌}
use api_payment.Common.{
  ℕ, zero, suc, ◌≡◌, ◌≢◌, refl, ap, sym, ◌∙◌, String, Bool, true, Option, none, some, List, [], ◌∷◌,
  str_eq as ◌==◌, if◌then◌else◌, Bool-cases, inl, inr, arith,
}
use api_payment.Common.Exec.{Exception, Result, ok, throw, query_failed, ok_injective}
use api_payment.Platform.{Row, TypeOrm, IsLawful}

module _ {E : Type 0} where
  -- The latest row that fits.
  abbrev first_of : (E → Bool) → List (Row E) → Option (Row E)
  first_of p [] = none
  first_of p (r ∷ t) = if p r.fields then some r else first_of p t

  -- An id that no row has: each is longer than that of the row before.
  abbrev fresh_id : List (Row E) → String
  fresh_id [] = "r"
  fresh_id (r ∷ t) = r.id ++ "r"

  abbrev added : E → List (Row E) → Row E
  added e t = record { id = fresh_id t; fields = e }

  abbrev replaced : Row E → List (Row E) → List (Row E)
  replaced row [] = []
  replaced row (r ∷ t) =
      let rest = replaced row t in if r.id == row.id then row ∷ rest else r ∷ rest

module _ {E : Type 0} where
  abbrev insert_after : E → ℕ × List (Row E) → Result (Row E) × (ℕ × List (Row E))
  insert_after e (zero, t) = (ok (added e t), (zero, added e t ∷ t))
  insert_after e (suc n, t) = (throw query_failed, (n, t))

  abbrev update_after : Row E → ℕ × List (Row E) → Result (Row E) × (ℕ × List (Row E))
  update_after row (zero, t) = (ok row, (zero, replaced row t))
  update_after row (suc n, t) = (throw query_failed, (n, t))

abbrev pub memory : TypeOrm
memory = record {
  Table = λ E. List (Row E);
  find_one = λ E p t. ok (first_of p t);
  find_last = λ E p t. ok (first_of p t);
  insert = λ E e t. (ok (added e t), added e t ∷ t);
  update = λ E row t. (ok row, replaced row t);
}

module _ {E : Type 0} (p : E → Bool) where
  first_of-fits : (t : List (Row E)) (r : Row E) → first_of p t ≡ some r → p r.fields ≡ true
  first_of-fits [] r h = cc
  first_of-fits (s ∷ t) r h = elim (Bool-cases (p s.fields)) [
    | inl fits ↦
        let found : some s ≡ some r = rw fits at h in
        let same : s ≡ r = ground arith in rw (← same) fits
    | inr misses ↦ first_of-fits t r (rw misses at h)
  ]

  replaced-found :
      (row : Row E) (t : List (Row E)) (r : Row E)
      → p row.fields ≡ true
      → first_of p t ≡ some r
      → r.id ≡ row.id
      → first_of p (replaced row t) ≢ none
  replaced-found row [] r fits found same = cc
  replaced-found row (s ∷ t) r fits found same = elim (Bool-cases (s.id == row.id)) [
    | inl here ↦ rw (here, fits) (ground arith)
    | inr elsewhere ↦ elim (Bool-cases (p s.fields)) [
      | inl hits ↦ rw (elsewhere, hits) (ground arith)
      | inr misses ↦ rw (elsewhere, misses) (replaced-found row t r fits (rw misses at found) same)
    ]
  ]

-- The engine keeps what the services rely on.
pub memory-IsLawful : IsLawful memory
memory-IsLawful = record {
  found_fits = λ E p t r found. first_of-fits p t r (ok_injective _ _ found);
  insert_column = λ E c e t t' r stored.
      let row = ok_injective _ _ (ap (λ s. s.0) stored) in ap (λ r. c r.fields) (sym row);
  insert_last = λ E p e t t' r found stored fits seen.
      let row = ok_injective _ _ (ap (λ s. s.0) stored) in
      let table = ap (λ s. s.1) stored in
      sym (ok_injective _ _ (rw (← table, fits) at seen)) ∙ ap some row;
  insert_other =
      λ E p e t t' r stored fits. let table = ap (λ s. s.1) stored in rw (← table, fits) refl;
  insert_found = λ E p e t t' r stored fits missing.
      let table = ap (λ s. s.1) stored in
      let none_found = ok_injective _ _ (rw (← table, fits) at missing) in cc;
  update_found = λ E p r s e t t' found stored fits missing.
      let table = ap (λ s. s.1) stored in
      let none_found = ok_injective _ _ (rw (← table) at missing) in
      replaced-found p (record r { fields = e }) t r fits (ok_injective _ _ found) refl none_found;
  insert_failed = λ E p e t t' x stored. cc;
}

-- The same database where the next writes of a table, as many as the number beside its rows, fail.
abbrev pub flaky : TypeOrm
flaky = record {
  Table = λ E. ℕ × List (Row E);
  find_one = λ E p t. ok (first_of p t.1);
  find_last = λ E p t. ok (first_of p t.1);
  insert = λ E e. insert_after e;
  update = λ E row. update_after row;
}

module _ {E : Type 0} where
  inserted_rows :
      (e : E) (t t' : ℕ × List (Row E)) (r : Row E)
      → insert_after e t ≡ (ok r, t')
      → memory.insert E e t.1 ≡ (ok r, t'.1)
  inserted_rows e (zero, t) t' r stored = ap (λ s. (s.0, s.1.1)) stored
  inserted_rows e (suc n, t) t' r stored = cc

  updated_rows :
      (row : Row E) (t t' : ℕ × List (Row E)) (r : Row E)
      → update_after row t ≡ (ok r, t')
      → memory.update E row t.1 ≡ (ok r, t'.1)
  updated_rows row (zero, t) t' r stored = ap (λ s. (s.0, s.1.1)) stored
  updated_rows row (suc n, t) t' r stored = cc

  failed_rows :
      (e : E) (t t' : ℕ × List (Row E)) (x : Exception)
      → insert_after e t ≡ (throw x, t')
      → t'.1 ≡ t.1
  failed_rows e (zero, t) t' x stored = cc
  failed_rows e (suc n, t) t' x stored = sym (ap (λ s. s.1.1) stored)

-- It keeps what the services rely on as well.
pub flaky-IsLawful : IsLawful flaky
flaky-IsLawful =
    let m = memory-IsLawful in
    record {
      found_fits = λ E p t r found. m.found_fits E p t.1 r found;
      insert_column =
          λ E c e t t' r stored. m.insert_column E c e t.1 t'.1 r (inserted_rows e t t' r stored);
      insert_last = λ E p e t t' r found stored fits seen.
          m.insert_last E p e t.1 t'.1 r found (inserted_rows e t t' r stored) fits seen;
      insert_other = λ E p e t t' r stored fits.
          m.insert_other E p e t.1 t'.1 r (inserted_rows e t t' r stored) fits;
      insert_found = λ E p e t t' r stored fits missing.
          m.insert_found E p e t.1 t'.1 r (inserted_rows e t t' r stored) fits missing;
      update_found = λ E p r s e t t' found stored fits missing.
          m.update_found E p r s e t.1 t'.1 found (updated_rows _ t t' s stored) fits missing;
      insert_failed = λ E p e t t' x stored.
          let same = failed_rows e t t' x stored in
          (ap (λ t. ok (first_of p t)) same, ap (λ t. ok (first_of p t)) same);
    }
