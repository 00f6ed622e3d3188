-- ===== src/Permissions/Roles/Sets.antt =====
-- `updateRolePermissions`: the load of the role, and the two saves together.
use mathlib.Core.Path.{subst}
use api_payment.Common.{
  String, ◌≡◌, ◌↔◌, refl, sym, ap, ◌∙◌, inl, inr, true, none, some, List, [], ◌∷◌, str_eq as ◌==◌,
  eq_iff, is_some, Option-cases, arith,
}
use api_payment.Common.Exec.{Result, ok, ok_injective, continue-eq-ok, ◌>>◌}
use api_payment.Common.Lists.{AnyOf, All}
use api_payment.Platform.{Row}
use api_payment.Platform.Manager.{IdsUnique}
use api_payment.Permissions.Entities.{
  Permission, Role, RolePermission, LoadedRole, LoadedRolePermission,
}
use api_payment.Permissions.Store.{
  Environment, Store, query_each, is_live, permission_repository, query, role_permission_repository,
}
use api_payment.Permissions.Clients.{load_permission, load_role_permission, load_found_role}
use api_payment.Permissions.Clients.Loads.{
  and-eq-true, and_then-eq-ok, query_each-AnySuch, query-AnySuch,
}
use api_payment.Permissions.Grants.{IsSound}
use api_payment.Permissions.Roles.Changes.{
  HasPermission, Loaded, permission_ids_of-Names, gone, to_delete-gone,
}
use api_payment.Permissions.Roles.{
  row_ids, active, permission_ids_of, to_delete, to_create, save_deleted, save_created,
  replace_permissions,
}
use api_payment.Permissions.Roles.Assigned.{
  LiveRow, RoleHas, save_deleted-Without, save_created-With, IsLoaded, RoleHas-wanted,
}

-- A loaded permission is the one that its row names.
abbrev pub LoadsOwn : LoadedRolePermission → Type 0
LoadsOwn rp = (p : Row Permission) → rp.permission ≡ some p → p.id ≡ rp.row.fields.permission_id

query_each-All :
    {A B : Type 0} (Q : B → Type 0) (f : A → Result B)
    → ((a : A) (b : B) → f a ≡ ok b → Q b)
    → (as' : List A) (bs : List B) → query_each f as' ≡ ok bs
    → All Q bs
unfolding query_each
query_each-All Q f h [] bs e = rw (← ok_injective [] bs e) tt
query_each-All Q f h (a ∷ as') bs e =
    let (b, one, rest) = and_then-eq-ok (f a) _ e in
    let (bs', more, last) = and_then-eq-ok (query_each f as') _ rest in
    rw (← ok_injective (b ∷ bs') bs last) (h a b one, query_each-All Q f h as' bs' more)

LoadsOwn-HasPermission :
    (rps : List LoadedRolePermission) (ids : List String)
    → All LoadsOwn rps
    → permission_ids_of rps ≡ ok ids
    → All HasPermission rps
unfolding permission_ids_of
LoadsOwn-HasPermission [] ids h e = tt
LoadsOwn-HasPermission (rp ∷ rps) ids (own, h) e = elim (Option-cases rp.permission) [
  | inl missing ↦ absurd (ground arith)
  | inr (p, there) ↦
      let (ids', rest, last) = and_then-eq-ok (permission_ids_of rps) _ (rw there at e) in
      ((p, there, own p there), LoadsOwn-HasPermission rps ids' h rest)
]

-- No row that was found has a date of deletion.
active-of_live :
    (rps : List LoadedRolePermission)
    → All (λ (rp : LoadedRolePermission). rp.row.fields.deleted_at ≡ none) rps
    → active rps ≡ rps
unfolding active
active-of_live [] h = refl
active-of_live (rp ∷ rps) (undeleted, h) = ground (arith, active-of_live rps h)

module _ (v : Environment) (w : IsSound v) (s : Store v) where
  load_role_permission-row :
      (x : Row RolePermission) (rp : LoadedRolePermission)
      → load_role_permission v s x ≡ ok rp
      → (rp.row ≡ x) × LoadsOwn rp
  unfolding load_role_permission load_permission
  load_role_permission-row x rp e =
      let (o, found, last) = and_then-eq-ok (load_permission v x.fields.permission_id s) _ e in
      let same = ok_injective (record { row = x; permission = o }) rp last in
      let row : rp.row ≡ x = ap (λ (y : LoadedRolePermission). y.row) (sym same) in
      (
        row,
        λ p there.
            let answer : o ≡ some p =
              ap (λ (y : LoadedRolePermission). y.permission) same ∙ there in
            let (holds, fits) =
              w.manager.find_one_some Permission _ s.permissions p (found ∙ ap ok answer) in
            let hit =
              ((and-eq-true (is_live v (permission_repository v) p)
                  (p.id == x.fields.permission_id)).0
                fits).1 in
            (eq_iff p.id x.fields.permission_id).0 hit
            ∙ ap (λ (y : Row RolePermission). y.fields.permission_id) (sym row),
      )

  rows_of_role :
      (row : Row Role) (rows : List (Row RolePermission)) (rps : List LoadedRolePermission)
      → query v (role_permission_repository v) (λ x. x.fields.role_id == row.id) s ≡ ok rows
      → query_each (load_role_permission v s) rows ≡ ok rps
      → (x : Row RolePermission) → Loaded rps x ↔ (LiveRow v w s x × (x.fields.role_id ≡ row.id))
  rows_of_role row rows rps found each x =
      let loads =
        query_each-AnySuch (λ (y : Row RolePermission). y ≡ x)
          (λ (rp : LoadedRolePermission). rp.row ≡ x) (load_role_permission v s)
          (λ y rp h.
            let same = (load_role_permission-row y rp h).0 in (λ e. same ∙ e, λ e. sym same ∙ e))
          rows rps each in
      let seen =
        query-AnySuch v w s (role_permission_repository v) (λ y. y.fields.role_id) row.id
          (λ y. y ≡ x) rows found in
      (
        λ m.
            let (y, live, mine, e) = seen.0 (loads.1 m) in
            subst (λ (z : Row RolePermission). LiveRow v w s z × (z.fields.role_id ≡ row.id)) e
              (live, mine),
        λ (live, mine). loads.0 (seen.1 (x, live, mine, refl)),
      )

  pub load_found_role-rows :
      (row : Row Role) (role : LoadedRole)
      → load_found_role v s (some row) ≡ ok (some role)
      → (role.row ≡ row)
        × All LoadsOwn role.role_permissions
        × ((x : Row RolePermission)
            → Loaded role.role_permissions x ↔ (LiveRow v w s x × (x.fields.role_id ≡ row.id)))
  unfolding load_found_role
  load_found_role-rows row role e =
      let (rows, found, rest) = and_then-eq-ok (query v (role_permission_repository v) _ s) _ e in
      let (rps, each, last) = and_then-eq-ok (query_each _ rows) _ rest in
      let answer = ok_injective _ (some role) last in
      let same : record { row = row; role_permissions = rps } ≡ role = ground arith in
      rw (← same) (
        refl,
        query_each-All LoadsOwn (load_role_permission v s)
            (λ x rp h. (load_role_permission-row x rp h).1) rows rps each,
        λ x. rows_of_role row rows rps found each x,
      )

  undeleted :
      (rps : List LoadedRolePermission)
      → ((x : Row RolePermission) → Loaded rps x → LiveRow v w s x)
      → All (λ (rp : LoadedRolePermission). rp.row.fields.deleted_at ≡ none) rps
  undeleted [] live = tt
  undeleted (rp ∷ rps) live =
      let (holds, l) = live rp.row (inl refl) in
      (ground arith, undeleted rps (λ x m. live x (inr m)))

  to_delete-IdsUnique :
      (role : LoadedRole) (wanted : List String)
      → IsLoaded v w s role
      → IdsUnique (to_delete v.now wanted role.role_permissions)
  to_delete-IdsUnique role wanted loaded x y m n same =
      let (p, lp, ep) = to_delete-gone v.now wanted role.role_permissions x m in
      let (q, lq, eq) = to_delete-gone v.now wanted role.role_permissions y n in
      let hp = ((loaded.all_rows p).0 lp).0 in
      let hq = ((loaded.all_rows q).0 lq).0 in
      let ids =
        ap (λ (z : Row RolePermission). z.id) ep
        ∙ same
        ∙ ap (λ (z : Row RolePermission). z.id) (sym eq) in
      sym ep ∙ ap (gone v.now wanted) (w.manager.ids_unique RolePermission _ p q hp.0 hq.0 ids) ∙ eq

  to_delete-deleted :
      (role : LoadedRole) (wanted : List String) (y : Row RolePermission)
      → AnyOf y (to_delete v.now wanted role.role_permissions)
      → is_some y.fields.deleted_at ≡ true
  to_delete-deleted role wanted y m =
      let (x, l, e) = to_delete-gone v.now wanted role.role_permissions y m in
      sym (ap (λ (z : Row RolePermission). is_some z.fields.deleted_at) e)

  saved-RoleHas :
      (u : Store v) (role : LoadedRole) (ps : List (Row Permission)) (existing : List String)
      → IsLoaded v w s role
      → permission_ids_of role.role_permissions ≡ ok existing
      → (save_deleted v (to_delete v.now (row_ids ps) role.role_permissions)
            >> save_created v (to_create role.row.id existing ps))
          s
        ≡ (ok tt, u)
      → (i : String) → RoleHas v w u role.row.id i ↔ AnyOf i (row_ids ps)
  saved-RoleHas u role ps existing loaded ids e =
      let us = to_delete v.now (row_ids ps) role.role_permissions in
      let (a, t, removed, last) = continue-eq-ok (save_deleted v us s) _ e in
      let (rs, made, added) = save_created-With v w t u (to_create role.row.id existing ps) last in
      RoleHas-wanted v w s t u role loaded ps existing
        (permission_ids_of-Names role.role_permissions existing loaded.named ids)
        (save_deleted-Without v w s t us (to_delete-IdsUnique role (row_ids ps) loaded)
          (to_delete-deleted role (row_ids ps)) removed)
        rs made added

  pub replace_permissions-RoleHas :
      (u : Store v) (row : Row Role) (role : LoadedRole) (ps : List (Row Permission))
      → load_found_role v s (some row) ≡ ok (some role)
      → replace_permissions v role ps s ≡ (ok tt, u)
      → (i : String) → RoleHas v w u role.row.id i ↔ AnyOf i (row_ids ps)
  unfolding replace_permissions
  replace_permissions-RoleHas u row role ps loads e =
      let (same, own, all_rows) = load_found_role-rows row role loads in
      let every =
        active-of_live role.role_permissions
          (undeleted role.role_permissions (λ x m. ((all_rows x).0 m).0)) in
      let (existing, s1, got, rest) =
        continue-eq-ok (permission_ids_of (active role.role_permissions), s) _ e in
      let ids : permission_ids_of role.role_permissions ≡ ok existing =
        ap permission_ids_of (sym every) ∙ ap (λ x. x.0) got in
      let loaded : IsLoaded v w s role = record {
        all_rows = λ x.
            subst
              (λ (r : Row Role).
                Loaded role.role_permissions x ↔ (LiveRow v w s x × (x.fields.role_id ≡ r.id)))
              (sym same) (all_rows x);
        named = LoadsOwn-HasPermission role.role_permissions existing own ids;
      } in
      let here : s1 ≡ s = sym (ap (λ x. x.1) got) in
      saved-RoleHas u role ps existing loaded ids (rw (every, here) at rest)
