-- ===== src/Platform/Manager.antt =====
-- TypeORM where a service reads and writes several rows at a time. A `where` object is the test of a
-- row that it stands for. Which rows a table holds is a relation, for an engine keeps no order.
pub mod InMemory
use api_payment.Common.{
  String, ◌≡◌, ◌≢◌, ◌↔◌, ◌⊎◌, Bool, true, false, not, ◌&&◌, Option, none, some, List,
  str_eq as ◌==◌,
}
use api_payment.Common.Exec.{Exception, Result, ok, throw}
use api_payment.Common.Lists.{AnyOf, All}
use api_payment.Platform.{Row}

pub record EntityManager : Type 1 where
  pub Table : Type 0 → Type 0
  -- `find({ where })`
  pub find : (E : Type 0) → (Row E → Bool) → Table E → Result (List (Row E))
  -- `findOne({ where })`
  pub find_one : (E : Type 0) → (Row E → Bool) → Table E → Result (Option (Row E))
  -- `save(create(fields))`
  pub insert : (E : Type 0) → E → Table E → Result (Row E) × Table E
  -- `save([create(fields), …])`
  pub insert_all : (E : Type 0) → List E → Table E → Result (List (Row E)) × Table E
  -- `save([row, …])` of rows that were found
  pub update_all : (E : Type 0) → List (Row E) → Table E → Result (List (Row E)) × Table E
  -- `remove([row, …])`
  pub remove_all : (E : Type 0) → List (Row E) → Table E → Result (Unit {0}) × Table E

-- One of the rows has this id.
abbrev pub has_id : {E : Type 0} → List (Row E) → String → Bool
has_id List.[] i = false
has_id (List.◌∷◌ r rs) i = elim (r.id == i) [ true ↦ true | false ↦ has_id rs i ]

-- Each id stands for one row of the list.
abbrev pub IdsUnique : {E : Type 0} → List (Row E) → Type 0
IdsUnique {E} rs = (r s : Row E) → AnyOf r rs → AnyOf s rs → r.id ≡ s.id → r ≡ s

-- Documented behaviour of the engine. A write that fails leaves the table as it was, since `save` and
-- `remove` of several entities are one transaction.
pub record IsFaithful (o : EntityManager) : Type 1 where
  pub Holds : (E : Type 0) → o.Table E → Row E → Type 0
  pub ids_unique :
      (E : Type 0) (t : o.Table E) (r s : Row E) → Holds E t r → Holds E t s → r.id ≡ s.id → r ≡ s
  pub find_holds :
      (E : Type 0) (p : Row E → Bool) (t : o.Table E) (rs : List (Row E))
      → o.find E p t ≡ ok rs
      → (r : Row E) → AnyOf r rs ↔ (Holds E t r × (p r ≡ true))
  pub find_one_some :
      (E : Type 0) (p : Row E → Bool) (t : o.Table E) (r : Row E)
      → o.find_one E p t ≡ ok (some r)
      → Holds E t r × (p r ≡ true)
  pub find_one_none :
      (E : Type 0) (p : Row E → Bool) (t : o.Table E)
      → o.find_one E p t ≡ ok none
      → (r : Row E) → Holds E t r
      → p r ≡ false
  pub insert_holds :
      (E : Type 0) (e : E) (t t' : o.Table E) (r : Row E)
      → o.insert E e t ≡ (ok r, t')
      → (r.fields ≡ e) × ((s : Row E) → Holds E t' s ↔ (Holds E t s ⊎ (r ≡ s)))
  pub insert_failed :
      (E : Type 0) (e : E) (t t' : o.Table E) (x : Exception)
      → o.insert E e t ≡ (throw x, t')
      → t' ≡ t
  pub insert_all_holds :
      (E : Type 0) (es : List E) (t t' : o.Table E) (rs : List (Row E))
      → o.insert_all E es t ≡ (ok rs, t')
      → ((e : E) → AnyOf e es ↔ ((r : Row E) × AnyOf r rs × (r.fields ≡ e)))
        × ((s : Row E) → Holds E t' s ↔ (Holds E t s ⊎ AnyOf s rs))
  pub update_all_holds :
      (E : Type 0) (us : List (Row E)) (t t' : o.Table E) (rs : List (Row E))
      → o.update_all E us t ≡ (ok rs, t')
      → IdsUnique us
      → (s : Row E) → Holds E t' s ↔ (AnyOf s us ⊎ (Holds E t s × (has_id us s.id ≡ false)))
  pub remove_all_holds :
      (E : Type 0) (rs : List (Row E)) (t t' : o.Table E)
      → o.remove_all E rs t ≡ (ok tt, t')
      → (s : Row E) → Holds E t' s ↔ (Holds E t s × (has_id rs s.id ≡ false))
  pub remove_all_failed :
      (E : Type 0) (rs : List (Row E)) (t t' : o.Table E) (x : Exception)
      → o.remove_all E rs t ≡ (throw x, t')
      → t' ≡ t
