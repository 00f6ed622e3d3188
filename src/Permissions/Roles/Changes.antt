-- ===== src/Permissions/Roles/Changes.antt =====
-- `updateRolePermissions`: the rows that it deletes and those that it creates.
use api_payment.Common.{
  String, ◌≡◌, ◌↔◌, refl, sym, ap, ◌∙◌, inl, inr, true, false, none, some, List, [], ◌∷◌, eq_iff,
  Bool-cases, Option-cases, arith,
}
use api_payment.Common.Exec.{ok, ok_injective}
use api_payment.Common.Lists.{AnyOf, AnySuch, All, includes}
use api_payment.Platform.{Row}
use api_payment.Platform.Manager.{has_id}
use api_payment.Permissions.Entities.{Permission, RolePermission, LoadedRolePermission}
use api_payment.Permissions.Clients.Loads.{and_then-eq-ok}
use api_payment.Permissions.Roles.{row_ids, permission_ids_of, to_delete, to_create}

-- The permission of the row was loaded, and it is the one that the row names.
abbrev pub HasPermission : LoadedRolePermission → Type 0
HasPermission rp =
    (p : Row Permission) × (rp.permission ≡ some p) × (p.id ≡ rp.row.fields.permission_id)

-- The row `x` was loaded.
abbrev pub Loaded : List LoadedRolePermission → Row RolePermission → Type 0
Loaded rps x = AnySuch (λ (rp : LoadedRolePermission). rp.row ≡ x) rps

-- A loaded row that names the permission `i`
abbrev pub Names : List LoadedRolePermission → String → Type 0
Names rps i = AnySuch (λ (rp : LoadedRolePermission). rp.row.fields.permission_id ≡ i) rps

pub permission_ids_of-Names :
    (rps : List LoadedRolePermission) (ids : List String)
    → All HasPermission rps
    → permission_ids_of rps ≡ ok ids
    → (i : String) → AnyOf i ids ↔ Names rps i
unfolding permission_ids_of
permission_ids_of-Names [] ids h e i = rw (← ok_injective [] ids e) (λ x. x, λ x. x)
permission_ids_of-Names (rp ∷ rps) ids ((p, loaded, same), h) e i =
    let (ids', rest, made) = and_then-eq-ok (permission_ids_of rps) _ (rw loaded at e) in
    let more = permission_ids_of-Names rps ids' h rest i in
    rw (← ok_injective (p.id ∷ ids') ids made) (ground (arith, more))

module _ (now : String) (wanted : List String) where
  -- What a row becomes when it is deleted
  abbrev pub gone : Row RolePermission → Row RolePermission
  gone x = record { id = x.id; fields = record x.fields { deleted_at = some now } }

  pub to_delete-gone :
      (rps : List LoadedRolePermission) (y : Row RolePermission)
      → AnyOf y (to_delete now wanted rps)
      → (x : Row RolePermission) × Loaded rps x × (gone x ≡ y)
  unfolding to_delete
  to_delete-gone [] y m = absurd m
  to_delete-gone (rp ∷ rps) y m = elim (Option-cases rp.permission) [
    | inl missing ↦ let (x, l, e) = to_delete-gone rps y (rw missing at m) in (x, inr l, e)
    | inr (p, loaded) ↦ elim (Bool-cases (includes wanted p.id)) [
      | inl stays ↦ let (x, l, e) = to_delete-gone rps y (rw (loaded, stays) at m) in (x, inr l, e)
      | inr goes ↦
          let n : AnyOf y (gone rp.row ∷ to_delete now wanted rps) = rw (loaded, goes) at m in
          elim n [
            | inl e ↦ (rp.row, inl refl, e)
            | inr k ↦ let (x, l, e) = to_delete-gone rps y k in (x, inr l, e)
          ]
    ]
  ]

  -- A loaded row is deleted exactly when its permission is not wanted.
  pub to_delete-has_id :
      (rps : List LoadedRolePermission)
      → All HasPermission rps
      → (i : String)
      → (has_id (to_delete now wanted rps) i ≡ true)
        ↔ AnySuch
            (λ (rp : LoadedRolePermission).
              (rp.row.id ≡ i) × (includes wanted rp.row.fields.permission_id ≡ false))
            rps
  unfolding to_delete
  to_delete-has_id [] h i = ground arith
  to_delete-has_id (rp ∷ rps) ((p, loaded, same), h) i =
      let more = to_delete-has_id rps h i in
      elim (Bool-cases (includes wanted p.id)) [
        | inl stays ↦ rw (loaded, stays) (ground (arith, more, ap (includes wanted) same))
        | inr goes ↦
            rw (loaded, goes) (ground (arith, more, ap (includes wanted) same, eq_iff rp.row.id i))
      ]

pub to_create-AnyOf :
    (role_id : String) (existing : List String) (ps : List (Row Permission)) (i : String)
    → ((e : RolePermission) × AnyOf e (to_create role_id existing ps) × (e.permission_id ≡ i))
      ↔ (AnyOf i (row_ids ps) × (includes existing i ≡ false))
unfolding to_create row_ids
to_create-AnyOf role_id existing [] i = (λ (e, m, h). absurd m, λ (m, h). absurd m)
to_create-AnyOf role_id existing (p ∷ ps) i =
    let more = to_create-AnyOf role_id existing ps i in
    let e : RolePermission = record {
      role_id = role_id;
      permission_id = p.id;
      deleted_at = none;
    } in
    elim (Bool-cases (includes existing p.id)) [
      | inl there ↦ rw there (
        λ x. let (m, h) = more.0 x in (inr m, h),
        λ (m, h). elim m [
          | inl same ↦ absurd (ground (arith, ap (includes existing) same))
          | inr n ↦ more.1 (n, h)
        ],
      )
      | inr new ↦ rw new (
        λ (x, m, h). elim m [
          | inl same ↦
              let named : p.id ≡ i = ap (λ (y : RolePermission). y.permission_id) same ∙ h in
              (inl named, ap (includes existing) (sym named) ∙ new)
          | inr n ↦ let (k, h') = more.0 (x, n, h) in (inr k, h')
        ],
        λ (m, h). elim m [
          | inl same ↦ (e, inl refl, same)
          | inr n ↦ let (x, k, h') = more.1 (n, h) in (x, inr k, h')
        ],
      )
    ]

pub to_create-own :
    (role_id : String) (existing : List String) (ps : List (Row Permission)) (e : RolePermission)
    → AnyOf e (to_create role_id existing ps)
    → (e.role_id ≡ role_id) × (e.deleted_at ≡ none)
unfolding to_create
to_create-own role_id existing [] e m = absurd m
to_create-own role_id existing (p ∷ ps) e m = elim (Bool-cases (includes existing p.id)) [
  | inl there ↦ to_create-own role_id existing ps e (rw there at m)
  | inr new ↦
      let made : RolePermission = record {
        role_id = role_id;
        permission_id = p.id;
        deleted_at = none;
      } in
      let n : AnyOf e (made ∷ to_create role_id existing ps) = rw new at m in
      elim n [
        | inl same ↦ (
          ap (λ (y : RolePermission). y.role_id) (sym same),
          ap (λ (y : RolePermission). y.deleted_at) (sym same),
        )
        | inr k ↦ to_create-own role_id existing ps e k
      ]
]
