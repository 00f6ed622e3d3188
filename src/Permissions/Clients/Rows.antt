-- ===== src/Permissions/Clients/Rows.antt =====
-- Writes of the rows of one client leave the rows of the others as they were.
use mathlib.Core.Path.{subst}
use api_payment.Common.{
  String, ◌≡◌, ◌≢◌, ◌↔◌, refl, sym, ap, ◌∙◌, inl, inr, true, false, List, [], ◌∷◌, eq_iff,
  str_eq as ◌==◌, Bool-cases, arith,
}
use api_payment.Common.Exec.{Result-cases}
use api_payment.Common.Lists.{AnyOf}
use api_payment.Platform.{Row}
use api_payment.Platform.Manager.{has_id}
use api_payment.Permissions.Store.{Environment}
use api_payment.Permissions.Grants.{IsSound}

module _ (v : Environment) (w : IsSound v) where
  module _ {E : Type 0} (column : E → String) (c : String) where
    -- Rows of others than `c` are in both tables or in neither.
    abbrev pub OthersSame : v.manager.Table E → v.manager.Table E → Type 0
    OthersSame t u =
        (row : Row E) → c ≢ column row.fields → w.manager.Holds E t row ↔ w.manager.Holds E u row

    pub insert-OthersSame :
        (e : E) (t : v.manager.Table E) → column e ≡ c → OthersSame t (v.manager.insert E e t).1
    insert-OthersSame e t own row other = elim (Result-cases (v.manager.insert E e t).0) [
      | inl (r, stored) ↦
          let (fields, holds) =
            w.manager.insert_holds E e t _ r (λ i. (stored i, (v.manager.insert E e t).1)) in
          let apart = λ (same : r ≡ row).
            other (sym own ∙ ap column (sym fields) ∙ ap (λ (x : Row E). column x.fields) same) in
          (
            λ h. (holds row).1 (inl h),
            λ h. elim ((holds row).0 h) [ inl was ↦ was | inr same ↦ absurd (apart same) ],
          )
      | inr (x, failed) ↦
          let kept =
            w.manager.insert_failed E e t _ x (λ i. (failed i, (v.manager.insert E e t).1)) in
          (
            λ h. subst (λ u. w.manager.Holds E u row) (sym kept) h,
            λ h. subst (λ u. w.manager.Holds E u row) kept h,
          )
    ]

    -- Every row of the list is one of `c` in the table.
    abbrev pub OwnRows : v.manager.Table E → List (Row E) → Type 0
    OwnRows t rows = (r : Row E) → AnyOf r rows → w.manager.Holds E t r × (column r.fields ≡ c)

    has_id-AnyOf :
        (rows : List (Row E)) (i : String)
        → has_id rows i ≡ true
        → (r : Row E) × AnyOf r rows × (r.id ≡ i)
    has_id-AnyOf [] i h = cc
    has_id-AnyOf (r ∷ rows) i h = elim (Bool-cases (r.id == i)) [
      | inl here ↦ (r, inl refl, (eq_iff r.id i).0 here)
      | inr later ↦ let (x, m, e) = has_id-AnyOf rows i (ground arith) in (x, inr m, e)
    ]

    pub remove_all-OthersSame :
        (rows : List (Row E)) (t : v.manager.Table E)
        → OwnRows t rows
        → OthersSame t (v.manager.remove_all E rows t).1
    remove_all-OthersSame rows t own row other =
        elim (Result-cases (v.manager.remove_all E rows t).0) [
          | inl (tt, removed) ↦
              let holds =
                w.manager.remove_all_holds E rows t _
                  (λ i. (removed i, (v.manager.remove_all E rows t).1)) row in
              (λ h. holds.1 (h, missing h), λ h. (holds.0 h).0)
          | inr (x, failed) ↦
              let kept =
                w.manager.remove_all_failed E rows t _ x
                  (λ i. (failed i, (v.manager.remove_all E rows t).1)) in
              (
                λ h. subst (λ u. w.manager.Holds E u row) (sym kept) h,
                λ h. subst (λ u. w.manager.Holds E u row) kept h,
              )
        ]
      where
        missing : w.manager.Holds E t row → has_id rows row.id ≡ false
        missing h = elim (Bool-cases (has_id rows row.id)) [
          | inr no_row ↦ no_row
          | inl found ↦
              let (r, m, same) = has_id-AnyOf rows row.id found in
              let (holds, mine) = own r m in
              let rows = w.manager.ids_unique E t r row holds h same in
              absurd (other (sym mine ∙ ap (λ (x : Row E). column x.fields) rows))
        ]
