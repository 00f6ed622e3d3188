-- ===== src/Permissions/Roles/Assigned.antt =====
-- `updateRolePermissions`: which permissions a role has afterwards.
use mathlib.Core.Path.{subst}
use api_payment.Common.{
  String, ◌≡◌, ◌≢◌, ◌↔◌, ◌⊎◌, refl, ap, ◌∙◌, inl, inr, true, false, not, Option, List, [], ◌∷◌,
  is_some, Bool-cases, arith,
}
use api_payment.Common.Exec.{ok, done-eq-ok}
use api_payment.Common.Lists.{
  AnyOf, AnySuch, All, includes, includes_iff, AnySuch-AnyOf, AnyOf-AnySuch,
}
use api_payment.Platform.{Row}
use api_payment.Platform.Manager.{has_id, IdsUnique}
use api_payment.Permissions.Entities.{Permission, RolePermission, LoadedRole, LoadedRolePermission}
use api_payment.Permissions.Store.{
  Environment, Store, is_live, update_all, insert_all, role_permission_repository,
}
use api_payment.Permissions.Grants.{IsSound, Lives}
use api_payment.Permissions.Roles.Changes.{
  HasPermission, Loaded, Names, gone, to_delete-has_id, to_create-AnyOf, to_create-own,
}
use api_payment.Permissions.Roles.{row_ids, to_delete, to_create, save_deleted, save_created}

AnySuch-map :
    {A : Type 0} {P Q : A → Type 0} (xs : List A)
    → ((x : A) → P x → Q x)
    → AnySuch P xs
    → AnySuch Q xs
AnySuch-map [] f m = absurd m
AnySuch-map (x ∷ xs) f (inl p) = inl (f x p)
AnySuch-map (x ∷ xs) f (inr m) = inr (AnySuch-map xs f m)

module _ (v : Environment) (w : IsSound v) where
  abbrev pub LiveRow : Store v → Row RolePermission → Type 0
  LiveRow s x = Lives v w (role_permission_repository v) s x

  -- The role has the permission.
  abbrev pub RoleHas : Store v → (role_id permission_id : String) → Type 0
  RoleHas s role_id permission_id =
      (x : Row RolePermission) × LiveRow s x
      × (x.fields.role_id ≡ role_id)
      × (x.fields.permission_id ≡ permission_id)

  -- What a store is after the rows `us` were saved
  abbrev pub Without : Store v → List (Row RolePermission) → Store v → Type 0
  Without s us t = (x : Row RolePermission) → LiveRow t x ↔ (LiveRow s x × (has_id us x.id ≡ false))

  live_and_deleted :
      (x : Row RolePermission)
      → is_live v (role_permission_repository v) x ≡ true
      → is_some x.fields.deleted_at ≢ true
  live_and_deleted x live gone = ground arith

  pub save_deleted-Without :
      (s t : Store v) (us : List (Row RolePermission))
      → IdsUnique us
      → ((y : Row RolePermission) → AnyOf y us → is_some y.fields.deleted_at ≡ true)
      → save_deleted v us s ≡ (ok tt, t)
      → Without s us t
  unfolding save_deleted
  save_deleted-Without s t [] unique deleted e x = rw (← ap (λ y. y.1) e) (λ h. (h, refl), λ h. h.0)
  save_deleted-Without s t (u ∷ us) unique deleted e x =
      let rows = u ∷ us in
      let (a, run) = done-eq-ok (update_all v (role_permission_repository v) rows s) e in
      let table : (v.manager.update_all RolePermission rows s.role_permissions).1
          ≡ t.role_permissions =
        ap (λ y. y.1.role_permissions) run in
      let holds =
        w.manager.update_all_holds RolePermission rows s.role_permissions t.role_permissions a
          (λ i. ((run i).0, table i)) unique x in
      (
        λ (h, live). elim (holds.0 h) [
          | inl m ↦ absurd (live_and_deleted x live (deleted x m))
          | inr (before, other) ↦ ((before, live), other)
        ],
        λ ((h, live), other). (holds.1 (inr (h, other)), live),
      )

  pub save_created-With :
      (s t : Store v) (es : List RolePermission)
      → save_created v es s ≡ (ok tt, t)
      → (rs : List (Row RolePermission)) × ((e : RolePermission)
          → AnyOf e es ↔ ((r : Row RolePermission) × AnyOf r rs × (r.fields ≡ e)))
        × ((x : Row RolePermission)
            → LiveRow t x
              ↔ (LiveRow s x ⊎ (AnyOf x rs × (is_live v (role_permission_repository v) x ≡ true))))
  unfolding save_created
  save_created-With s t [] e = (
    [],
    λ e'. (λ m. absurd m, λ (r, m, h). absurd m),
    λ x. rw (← ap (λ y. y.1) e) (λ h. inl h, λ h. elim h [ inl k ↦ k | inr (m, l) ↦ absurd m ]),
  )
  save_created-With s t (n ∷ ns) e =
      let es = n ∷ ns in
      let (rs, run) = done-eq-ok (insert_all v (role_permission_repository v) es s) e in
      let table : (v.manager.insert_all RolePermission es s.role_permissions).1
          ≡ t.role_permissions =
        ap (λ y. y.1.role_permissions) run in
      let (made, holds) =
        w.manager.insert_all_holds RolePermission es s.role_permissions t.role_permissions rs
          (λ i. ((run i).0, table i)) in
      (
        rs,
        made,
        λ x. (
          λ (h, live). elim ((holds x).0 h) [ inl k ↦ inl (k, live) | inr m ↦ inr (m, live) ],
          λ h. elim h [
            | inl (k, live) ↦ ((holds x).1 (inl k), live)
            | inr (m, live) ↦ ((holds x).1 (inr m), live)
          ],
        ),
      )

  -- The role was loaded with all its rows, each with the permission that it names.
  pub record IsLoaded (s : Store v) (role : LoadedRole) : Type 0 where
    pub all_rows :
        (x : Row RolePermission)
        → Loaded role.role_permissions x ↔ (LiveRow s x × (x.fields.role_id ≡ role.row.id))
    pub named : All HasPermission role.role_permissions

  module _ (s t u : Store v) (role : LoadedRole) (loaded : IsLoaded s role)
      (ps : List (Row Permission)) (existing : List String)
      (had : (i : String) → AnyOf i existing ↔ Names role.role_permissions i)
      (deleted : Without s (to_delete v.now (row_ids ps) role.role_permissions) t)
      (rs : List (Row RolePermission))
      (made : (e : RolePermission)
        → AnyOf e (to_create role.row.id existing ps)
          ↔ ((r : Row RolePermission) × AnyOf r rs × (r.fields ≡ e)))
      (added : (x : Row RolePermission)
        → LiveRow u x ↔ (
            LiveRow t x ⊎ (AnyOf x rs × (is_live v (role_permission_repository v) x ≡ true)))) where
    old_row-wanted :
        (x : Row RolePermission)
        → LiveRow t x
        → x.fields.role_id ≡ role.row.id
        → AnyOf x.fields.permission_id (row_ids ps)
    old_row-wanted x live mine =
        let (before, kept) = (deleted x).0 live in
        let there = (loaded.all_rows x).1 (before, mine) in
        elim (Bool-cases (includes (row_ids ps) x.fields.permission_id)) [
          | inl yes' ↦ (includes_iff (row_ids ps) x.fields.permission_id).0 yes'
          | inr no' ↦
              let hit =
                (to_delete-has_id v.now (row_ids ps) role.role_permissions loaded.named x.id).1 (
                  AnySuch-map role.role_permissions
                    (λ rp same. (
                      ap (λ (y : Row RolePermission). y.id) same,
                      ap (λ (y : Row RolePermission). includes (row_ids ps) y.fields.permission_id)
                            same
                          ∙ no',
                    ))
                    there) in
              absurd (cc)
        ]

    new_row-wanted :
        (x : Row RolePermission) → AnyOf x rs → AnyOf x.fields.permission_id (row_ids ps)
    new_row-wanted x m =
        let e = (made x.fields).1 (x, m, refl) in
        ((to_create-AnyOf role.row.id existing ps x.fields.permission_id).0 (x.fields, e, refl)).0

    wanted-old_row :
        (i : String) → AnyOf i (row_ids ps) → AnyOf i existing → RoleHas u role.row.id i
    wanted-old_row i want there =
        let (rp, m, named) =
          AnySuch-AnyOf (λ (rp : LoadedRolePermission). rp.row.fields.permission_id ≡ i)
            role.role_permissions ((had i).0 there) in
        let (before, mine) = (loaded.all_rows rp.row).0 (
          AnyOf-AnySuch (λ (q : LoadedRolePermission). q.row ≡ rp.row) rp role.role_permissions m
            refl) in
        let kept : has_id (to_delete v.now (row_ids ps) role.role_permissions) rp.row.id ≡ false =
          elim (Bool-cases
            (has_id (to_delete v.now (row_ids ps) role.role_permissions) rp.row.id)) [
              | inr stays ↦ stays
              | inl goes ↦
                  let (q, n, (same, unwanted)) =
                    AnySuch-AnyOf
                      (λ (q : LoadedRolePermission).
                        (q.row.id ≡ rp.row.id)
                        × (includes (row_ids ps) q.row.fields.permission_id ≡ false))
                      role.role_permissions
                      ((to_delete-has_id v.now (row_ids ps) role.role_permissions loaded.named
                          rp.row.id).0
                        goes) in
                  let (held, theirs) = (loaded.all_rows q.row).0 (
                    AnyOf-AnySuch (λ (x : LoadedRolePermission). x.row ≡ q.row) q
                      role.role_permissions n refl) in
                  let rows =
                    w.manager.ids_unique RolePermission s.role_permissions q.row rp.row held.0
                      before.0 same in
                  let is_wanted = (includes_iff (row_ids ps) i).1 want in
                  absurd (
                    ground (
                      arith,
                      ap (λ (y : Row RolePermission). includes (row_ids ps) y.fields.permission_id)
                          rows,
                      ap (includes (row_ids ps)) named,
                    ))
            ] in
        (rp.row, (added rp.row).1 (inl ((deleted rp.row).1 (before, kept))), mine, named)

    wanted-new_row :
        (i : String) → AnyOf i (row_ids ps) → includes existing i ≡ false → RoleHas u role.row.id i
    wanted-new_row i want fresh =
        let (e, m, named) = (to_create-AnyOf role.row.id existing ps i).1 (want, fresh) in
        let (r, n, fields) = (made e).0 m in
        let (own, undeleted) = to_create-own role.row.id existing ps e m in
        let live : is_live v (role_permission_repository v) r ≡ true =
          ap (λ (x : RolePermission). not (is_some x.deleted_at)) fields
          ∙ ap (λ (d : Option String). not (is_some d)) undeleted in
        (
          r,
          (added r).1 (inr (n, live)),
          ap (λ (x : RolePermission). x.role_id) fields ∙ own,
          ap (λ (x : RolePermission). x.permission_id) fields ∙ named,
        )

    pub RoleHas-wanted : (i : String) → RoleHas u role.row.id i ↔ AnyOf i (row_ids ps)
    RoleHas-wanted i = (
      λ (x, live, mine, named).
          subst (λ j. AnyOf j (row_ids ps)) named
            (elim ((added x).0 live) [
              | inl old ↦ old_row-wanted x old mine
              | inr (new, l) ↦ new_row-wanted x new
            ]),
      λ want. elim (Bool-cases (includes existing i)) [
        | inl there ↦ wanted-old_row i want ((includes_iff existing i).0 there)
        | inr fresh ↦ wanted-new_row i want fresh
      ],
    )
