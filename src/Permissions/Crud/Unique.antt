-- ===== src/Permissions/Crud/Unique.antt =====
-- The names of permissions: what `createPermission` and `createBulkPermissions` keep.
use mathlib.Core.Path.{subst}
use api_payment.Common.{
  String, ◌≡◌, ◌≢◌, refl, sym, ap, ◌∙◌, inl, inr, Option, none, some, List, [], ◌∷◌, str_eq as ◌==◌,
  eq_iff, Option-cases,
}
use api_payment.Common.Exec.{ok, continue-keeps_answer, continue-keeps, Result-cases}
use api_payment.Platform.{Row}
use api_payment.Permissions.Name.{permission_name}
use api_payment.Permissions.Entities.{Permission}
use api_payment.Permissions.Store.{
  Environment, Store, find_one, insert, is_live, permission_repository,
}
use api_payment.Permissions.Grants.{IsSound, Lives}
use api_payment.Permissions.Clients.Loads.{and-eq-true}
use api_payment.Permissions.Crud.{
  CreatePermissionDto, CreateBulkPermissionsDto, Bulk, save_permission, create_permission,
  bulk_permission, create_action, create_actions, create_bulk_permissions, bulk_answer,
  refuse_existing,
}

module _ (v : Environment) (w : IsSound v) where
  abbrev pub LivePermission : Store v → Row Permission → Type 0
  LivePermission s p = Lives v w (permission_repository v) s p

  -- No two permissions that are not deleted have the same name.
  abbrev pub NamesUnique : Store v → Type 0
  NamesUnique s =
      (p q : Row Permission)
      → LivePermission s p
      → LivePermission s q
      → p.fields.name ≡ q.fields.name
      → p ≡ q

  no_namesake :
      (s : Store v) (name : String) (p : Row Permission)
      → (find_one v (permission_repository v) (λ p. p.fields.name == name) s).0 ≡ ok none
      → LivePermission s p
      → p.fields.name ≢ name
  no_namesake s name p e (holds, live) same =
      let misses = w.manager.find_one_none Permission _ s.permissions e p holds in
      let hits =
        (and-eq-true (is_live v (permission_repository v) p) (p.fields.name == name)).1
          (live, (eq_iff p.fields.name name).1 same) in
      cc

  insert-NamesUnique :
      (s : Store v) (e : Permission)
      → ((p : Row Permission) → LivePermission s p → p.fields.name ≢ e.name)
      → NamesUnique s
      → NamesUnique (insert v (permission_repository v) e s).1
  insert-NamesUnique s e free u =
      elim (Result-cases (v.manager.insert Permission e s.permissions).0) [
        | inl (r, stored) ↦
            let (fields, holds) =
              w.manager.insert_holds Permission e s.permissions _ r
                (λ i. (stored i, (v.manager.insert Permission e s.permissions).1)) in
            let named = ap (λ (x : Permission). x.name) fields in
            λ p q (hp, lp) (hq, lq) same. elim ((holds p).0 hp) [
              | inl before ↦ elim ((holds q).0 hq) [
                | inl before' ↦ u p q (before, lp) (before', lq) same
                | inr new ↦ absurd (
                    free p (before, lp)
                      (same ∙ ap (λ (x : Row Permission). x.fields.name) (sym new) ∙ named))
              ]
              | inr new ↦ elim ((holds q).0 hq) [
                | inl before' ↦ absurd (
                    free q (before', lq)
                      (sym same ∙ ap (λ (x : Row Permission). x.fields.name) (sym new) ∙ named))
                | inr new' ↦ sym new ∙ new'
              ]
            ]
        | inr (x, failed) ↦
            let kept =
              w.manager.insert_failed Permission e s.permissions _ x
                (λ i. (failed i, (v.manager.insert Permission e s.permissions).1)) in
            subst (λ t. NamesUnique (record s { permissions = t })) (sym kept) u
      ]

  create_permission-NamesUnique :
      (dto : CreatePermissionDto) (s : Store v)
      → NamesUnique s
      → NamesUnique (create_permission v dto s).1
  unfolding create_permission save_permission
  create_permission-NamesUnique dto s u =
      continue-keeps_answer NamesUnique
        (find_one v (permission_repository v) (λ p. p.fields.name == dto.name) s)
        (save_permission v dto) u
        λ o e. elim (Option-cases o) [
          | inr (p, found) ↦ rw found u
          | inl free ↦
              rw free (insert-NamesUnique s _ (λ p. no_namesake s dto.name p (e ∙ ap ok free)) u)
        ]

  create_action-NamesUnique :
      (dto : CreateBulkPermissionsDto) (action : String) (bulk : Bulk) (s : Store v)
      (o : Option (Row Permission))
      → (find_one v
          (permission_repository v)
          (λ p. p.fields.name == permission_name dto.module_name action)
          s).0
        ≡ ok o
      → NamesUnique s
      → NamesUnique (create_action v dto action bulk o s).1
  unfolding create_action bulk_permission
  create_action-NamesUnique dto action bulk s (some p) e u = u
  create_action-NamesUnique dto action bulk s none e u =
      insert-NamesUnique s (bulk_permission dto action)
        (λ p. no_namesake s (permission_name dto.module_name action) p e) u

  create_actions-NamesUnique :
      (dto : CreateBulkPermissionsDto) (actions : List String) (bulk : Bulk) (s : Store v)
      → NamesUnique s
      → NamesUnique (create_actions v dto actions bulk s).1
  unfolding create_actions
  create_actions-NamesUnique dto [] bulk s u = u
  create_actions-NamesUnique dto (a ∷ as') bulk s u =
      continue-keeps_answer NamesUnique
        (find_one v (permission_repository v)
          (λ p. p.fields.name == permission_name dto.module_name a) s)
        _ u
        λ o e.
          continue-keeps NamesUnique (create_action v dto a bulk o s) (create_actions v dto as')
            (create_action-NamesUnique dto a bulk s o e u)
            (λ b k. create_actions-NamesUnique dto as' b (create_action v dto a bulk o s).1 k)

  bulk_answer-kept :
      (errors : List String) (created : List (Row Permission)) (existing : List String)
      (s : Store v)
      → (bulk_answer v errors created existing s).1 ≡ s
  unfolding bulk_answer refuse_existing
  bulk_answer-kept (e ∷ es) created existing s = refl
  bulk_answer-kept [] [] [] s = refl
  bulk_answer-kept [] [] (n ∷ ns) s = refl
  bulk_answer-kept [] (p ∷ ps) existing s = refl

  create_bulk_permissions-NamesUnique :
      (dto : CreateBulkPermissionsDto) (s : Store v)
      → NamesUnique s
      → NamesUnique (create_bulk_permissions v dto s).1
  unfolding create_bulk_permissions
  create_bulk_permissions-NamesUnique dto s u =
      let start : Bulk = record {
        created_permissions = [];
        existing_permissions = [];
        errors = [];
      } in
      continue-keeps NamesUnique (create_actions v dto dto.actions start s)
        (λ b. bulk_answer v b.errors b.created_permissions b.existing_permissions)
        (create_actions-NamesUnique dto dto.actions start s u)
        (λ b k. rw (bulk_answer-kept b.errors b.created_permissions b.existing_permissions) k)

  -- `createPermission` and `createBulkPermissions` keep the names of the permissions apart, however
  -- they end, repeated actions included.
  pub create-NamesUnique :
      (dto : CreatePermissionDto) (bulk : CreateBulkPermissionsDto) (s : Store v)
      → NamesUnique s
      → NamesUnique (create_permission v dto s).1 × NamesUnique (create_bulk_permissions v bulk s).1
  create-NamesUnique dto bulk s u =
      (create_permission-NamesUnique dto s u, create_bulk_permissions-NamesUnique bulk s u)
