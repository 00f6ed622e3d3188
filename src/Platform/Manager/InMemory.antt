-- ===== src/Platform/Manager/InMemory.antt =====
-- An engine of tables in memory, on lists, for examples: a later row of a table hides the earlier ones
-- of its id.
use Prim.Native.String.{◌++◌}
use api_payment.Common.{
  String, ◌≡◌, ◌≢◌, ◌↔◌, ◌⊎◌, refl, sym, ap, ◌∙◌, inl, inr, Bool, true, false, Option, none, some,
  List, [], ◌∷◌, ◌++◌ as append, str_eq as ◌==◌, eq_iff, if◌then◌else◌, Bool-cases, arith,
}
use api_payment.Common.Exec.{Exception, Result, ok, throw, query_failed, ok_injective}
use api_payment.Common.Lists.{AnyOf, filter}
use api_payment.Platform.{Row}
use api_payment.Platform.Manager.{EntityManager, IsFaithful, has_id, IdsUnique}

module _ {E : Type 0} where
  unfoldable pub without : String → List (Row E) → List (Row E)
  without i [] = []
  without i (r ∷ rs) = let rest = without i rs in if r.id == i then rest else r ∷ rest

  unfoldable pub rows : List (Row E) → List (Row E)
  unfolding without
  rows [] = []
  rows (r ∷ t) = r ∷ without r.id (rows t)

  unfoldable pub first : (Row E → Bool) → List (Row E) → Option (Row E)
  first p [] = none
  first p (r ∷ rs) = if p r then some r else first p rs

  unfoldable pub fresh_id : List (Row E) → String
  fresh_id [] = "r"
  fresh_id (r ∷ t) = r.id ++ "r"

  -- An insertion fails where its id is taken.
  unfoldable pub insert_row : E → List (Row E) → Result (Row E) × List (Row E)
  unfolding fresh_id rows
  insert_row e t =
      if has_id (rows t) (fresh_id t)
      then (throw query_failed, t)
      else (ok (record { id = fresh_id t; fields = e }), record { id = fresh_id t; fields = e } ∷ t)

  unfoldable pub then_insert : Result (Row E) → Result (List (Row E)) → Result (List (Row E))
  then_insert (ok r) (ok rs) = ok (r ∷ rs)
  then_insert (throw x) rs = throw x
  then_insert (ok r) (throw x) = throw x

  unfoldable pub insert_rows : List E → List (Row E) → Result (List (Row E)) × List (Row E)
  unfolding insert_row then_insert
  insert_rows [] t = (ok [], t)
  insert_rows (e ∷ es) t =
      let (r, t1) = insert_row e t in let (rs, t2) = insert_rows es t1 in (then_insert r rs, t2)

  unfoldable pub kept_rows : List (Row E) → List (Row E) → List (Row E)
  kept_rows removed [] = []
  kept_rows removed (r ∷ t) =
      let rest = kept_rows removed t in if has_id removed r.id then rest else r ∷ rest

  without-AnyOf :
      (i : String) (rs : List (Row E)) (s : Row E)
      → AnyOf s (without i rs) ↔ (AnyOf s rs × (s.id ≢ i))
  unfolding without
  without-AnyOf i [] s = ground arith
  without-AnyOf i (r ∷ rs) s = ground (arith, eq_iff r.id i, without-AnyOf i rs s)

  pub rows_unique : (t : List (Row E)) → IdsUnique (rows t)
  unfolding rows
  rows_unique [] r s m n e = absurd m
  rows_unique (x ∷ t) r s m n e = ground (
    arith,
    without-AnyOf x.id (rows t) r,
    without-AnyOf x.id (rows t) s,
    λ (a : AnyOf r (rows t)) (b : AnyOf s (rows t)). rows_unique t r s a b e,
  )

  pub filter-AnyOf :
      (p : Row E → Bool) (rs : List (Row E)) (s : Row E)
      → AnyOf s (filter p rs) ↔ (AnyOf s rs × (p s ≡ true))
  filter-AnyOf p [] s = ground arith
  filter-AnyOf p (r ∷ rs) s = ground (arith, filter-AnyOf p rs s)

  pub first-some :
      (p : Row E → Bool) (rs : List (Row E)) (r : Row E)
      → first p rs ≡ some r
      → AnyOf r rs × (p r ≡ true)
  unfolding first
  first-some p [] r e = cc
  first-some p (x ∷ rs) r e = ground (arith, first-some p rs r)

  pub first-none :
      (p : Row E → Bool) (rs : List (Row E))
      → first p rs ≡ none
      → (r : Row E) → AnyOf r rs
      → p r ≡ false
  unfolding first
  first-none p [] e r m = absurd m
  first-none p (x ∷ rs) e r m =
      ground (arith, λ (h : first p rs ≡ none) (a : AnyOf r rs). first-none p rs h r a)

  has_id-ne :
      (rs : List (Row E)) (i : String) (s : Row E) → has_id rs i ≡ false → AnyOf s rs → s.id ≢ i
  has_id-ne [] i s h m = absurd m
  has_id-ne (r ∷ rs) i s h m =
      ground (arith, eq_iff r.id i, λ (a : AnyOf s rs). has_id-ne rs i s (ground arith) a)

  pub insert_row-AnyOf :
      (e : E) (t t' : List (Row E)) (r : Row E)
      → insert_row e t ≡ (ok r, t')
      → (r.fields ≡ e) × ((s : Row E) → AnyOf s (rows t') ↔ (AnyOf s (rows t) ⊎ (r ≡ s)))
  unfolding insert_row rows
  insert_row-AnyOf e t t' r h = elim (Bool-cases (has_id (rows t) (fresh_id t))) [
    | inl taken ↦ absurd (ground arith)
    | inr free ↦
        let row : Row E = record { id = fresh_id t; fields = e } in
        let same : row ≡ r = ok_injective row r (ap (λ x. x.0) (rw free at h)) in
        let table : row ∷ t ≡ t' = ap (λ x. x.1) (rw free at h) in
        (
          ap (λ (x : Row E). x.fields) (sym same),
          λ s.
              rw (← table, ← same)
                (ground (
                  arith,
                  without-AnyOf (fresh_id t) (rows t) s,
                  λ (m : AnyOf s (rows t)). has_id-ne (rows t) (fresh_id t) s free m,
                )),
        )
  ]

  pub insert_row-failed :
      (e : E) (t t' : List (Row E)) {x : Exception} → insert_row e t ≡ (throw x, t') → t' ≡ t
  unfolding insert_row
  insert_row-failed e t t' h = ground arith

  then_insert-eq-ok :
      (a : Result (Row E)) (b : Result (List (Row E))) (rs : List (Row E))
      → then_insert a b ≡ ok rs
      → (r : Row E) × (a ≡ ok r) × (rs' : List (Row E)) × (b ≡ ok rs') × (r ∷ rs' ≡ rs)
  unfolding then_insert
  then_insert-eq-ok (ok r) (ok rs') rs h = (r, refl, rs', refl, ok_injective _ rs h)
  then_insert-eq-ok (throw x) b rs h = cc
  then_insert-eq-ok (ok r) (throw x) rs h = cc

  pub insert_rows-AnyOf :
      (es : List E) (t t' : List (Row E)) (rs : List (Row E))
      → insert_rows es t ≡ (ok rs, t')
      → ((e : E) → AnyOf e es ↔ ((r : Row E) × AnyOf r rs × (r.fields ≡ e)))
        × ((s : Row E) → AnyOf s (rows t') ↔ (AnyOf s (rows t) ⊎ AnyOf s rs))
  unfolding insert_rows then_insert
  insert_rows-AnyOf [] t t' rs h =
      let none_made : [] ≡ rs = ok_injective [] rs (ap (λ x. x.0) h) in
      let table : t ≡ t' = ap (λ x. x.1) h in
      rw (← none_made, ← table) (λ e. (λ m. absurd m, λ (r, m, f). absurd m), λ s. ground arith)
  insert_rows-AnyOf (e ∷ es) t t' rs h =
      let x = insert_row e t in
      let y = insert_rows es x.1 in
      let (r, r_made, rs', rs_made, made) = then_insert-eq-ok x.0 y.0 rs (ap (λ z. z.0) h) in
      let table : y.1 ≡ t' = ap (λ z. z.1) h in
      let one = insert_row-AnyOf e t x.1 r (λ i. (r_made i, x.1)) in
      let more = insert_rows-AnyOf es x.1 y.1 rs' (λ i. (rs_made i, y.1)) in
      rw (← made, ← table)
        (
          λ e'. (
            λ m. elim m [
              | inl same ↦ (r, inl refl, one.0 ∙ same)
              | inr n ↦ let (q, i, f) = (more.0 e').0 n in (q, inr i, f)
            ],
            λ (q, i, f). elim i [
              | inl same ↦ inl (sym one.0 ∙ ap (λ (z : Row E). z.fields) same ∙ f)
              | inr n ↦ inr ((more.0 e').1 (q, n, f))
            ],
          ),
          λ s. ground (arith, one.1 s, more.1 s),
        )

  pub kept_rows-AnyOf :
      (removed t : List (Row E)) (s : Row E)
      → AnyOf s (rows (kept_rows removed t)) ↔ (AnyOf s (rows t) × (has_id removed s.id ≡ false))
  unfolding rows kept_rows
  kept_rows-AnyOf removed [] s = ground arith
  kept_rows-AnyOf removed (r ∷ t) s = elim (Bool-cases (has_id removed r.id)) [
    | inl gone ↦
        rw gone (ground (arith, without-AnyOf r.id (rows t) s, kept_rows-AnyOf removed t s))
    | inr stays ↦ rw stays (
        ground (
          arith,
          without-AnyOf r.id (rows t) s,
          without-AnyOf r.id (rows (kept_rows removed t)) s,
          kept_rows-AnyOf removed t s,
        ))
  ]

  pub hidden-AnyOf :
      (us t : List (Row E)) (s : Row E)
      → IdsUnique us
      → AnyOf s (rows (append us t)) ↔ (AnyOf s us ⊎ (AnyOf s (rows t) × (has_id us s.id ≡ false)))
  unfolding rows
  hidden-AnyOf [] t s u = ground arith
  hidden-AnyOf (x ∷ us) t s u =
      let later = λ (r q : Row E) (m : AnyOf r us) (n : AnyOf q us). u r q (inr m) (inr n) in
      ground (
        arith,
        without-AnyOf x.id (rows (append us t)) s,
        hidden-AnyOf us t s later,
        eq_iff x.id s.id,
        λ (m : AnyOf s us) (e : x.id ≡ s.id). u x s (inl refl) (inr m) e,
      )

abbrev pub manager_in_memory : EntityManager
manager_in_memory = record {
  Table = λ E. List (Row E);
  find = λ E p t. ok (filter p (rows t));
  find_one = λ E p t. ok (first p (rows t));
  insert = λ E e t. insert_row e t;
  insert_all = λ E es t. insert_rows es t;
  update_all = λ E us t. (ok us, append us t);
  remove_all = λ E rs t. (ok tt, kept_rows rs t);
}

unfoldable pub manager_in_memory-IsFaithful : IsFaithful manager_in_memory
manager_in_memory-IsFaithful = record {
  Holds = λ E t r. AnyOf r (rows t);
  ids_unique = λ E t r s m n e. rows_unique t r s m n e;
  find_holds = λ E p t rs e r. rw (← ok_injective _ rs e) (filter-AnyOf p (rows t) r);
  find_one_some = λ E p t r e. first-some p (rows t) r (ok_injective _ _ e);
  find_one_none = λ E p t e r m. first-none p (rows t) (ok_injective _ _ e) r m;
  insert_holds = λ E e t t' r h. insert_row-AnyOf e t t' r h;
  insert_failed = λ E e t t' x h. insert_row-failed e t t' h;
  insert_all_holds = λ E es t t' rs h. insert_rows-AnyOf es t t' rs h;
  update_all_holds = λ E us t t' rs h u s. rw (← ap (λ x. x.1) h) (hidden-AnyOf us t s u);
  remove_all_holds = λ E rs t t' h s. rw (← ap (λ x. x.1) h) (kept_rows-AnyOf rs t s);
  remove_all_failed = λ E rs t t' x h. cc;
}
