-- ===== src/Permissions/Roles/Updated.antt =====
-- `updateRolePermissions` from the look-up of the role to the answer.
use mathlib.Core.Path.{subst}
use api_payment.Common.{
  ℕ, String, ◌≡◌, ◌≢◌, ◌↔◌, refl, sym, ap, ◌∙◌, inl, inr, Bool, Option, none, some, List, ◌∷◌,
  str_eq as ◌==◌, eq_iff, Option-cases, arith,
}
use api_payment.Common.Exec.{ok, ok_injective, Exec, continue-eq-ok, ◌>>=◌, ◌>>◌, ◌>>=◌}
use api_payment.Common.Lists.{AnyOf}
use api_payment.Platform.{Row}
use api_payment.Permissions.Entities.{Permission, Role, LoadedRole}
use api_payment.Permissions.Store.{Environment, Store, is_live}
use api_payment.Permissions.Clients.{load_found_role}
use api_payment.Permissions.Clients.Loads.{and-eq-true}
use api_payment.Permissions.Grants.{IsSound}
use api_payment.Permissions.Roles.{
  row_ids, replace_permissions, update_role_permissions, find_role, if_loaded, get_role_by_id,
}
use api_payment.Permissions.Roles.Assigned.{RoleHas}
use api_payment.Permissions.Finder.{find_permissions, find_every, by_ids}
use api_payment.Permissions.Roles.Sets.{replace_permissions-RoleHas, load_found_role-rows}
use api_payment.Permissions.Store.{query_one, role_repository, find_one}

module _ (v : Environment) where
  -- The method leaves the store alone.
  abbrev KeepsStore : {A : Type 0} → Exec (Store v) A → Type 0
  KeepsStore m = (s : Store v) → (m s).1 ≡ s

  find_every-KeepsStore :
      (fits : Row Permission → Bool) (asked : ℕ) → KeepsStore (find_every v fits asked)
  unfolding find_every
  find_every-KeepsStore fits asked s = ground arith

  by_ids-KeepsStore : (ids : Option (List String)) → KeepsStore (by_ids v ids)
  unfolding by_ids
  by_ids-KeepsStore (some (i ∷ is)) s = find_every-KeepsStore _ _ s
  by_ids-KeepsStore _ s = refl

  find_permissions-KeepsStore :
      (names ids : Option (List String)) → KeepsStore (find_permissions v names ids)
  unfolding find_permissions
  find_permissions-KeepsStore (some (n ∷ ns)) ids s = find_every-KeepsStore _ _ s
  find_permissions-KeepsStore _ ids s = by_ids-KeepsStore ids s

  -- A role that was found has the id, and was loaded from this store, which it leaves alone.
  find_role-eq-ok :
      (role_id : String) (s t : Store v) (o : Option LoadedRole)
      → find_role v role_id s ≡ (ok o, t)
      → (t ≡ s)
        × ((found : Option (Row Role)) × (query_one v
                (role_repository v)
                (λ role. role.id == role_id)
                s
              ≡ ok found)
            × (load_found_role v s found ≡ ok o))
  unfolding find_role
  find_role-eq-ok role_id s t o e =
      let (found, u, run, last) =
        continue-eq-ok (find_one v (role_repository v) (λ role. role.id == role_id) s) _ e in
      let here : s ≡ u = ap (λ x. x.1) run in
      (
        sym (ap (λ x. x.1) last) ∙ sym here,
        (
          found,
          ap (λ x. x.0) run,
          subst (λ z. load_found_role v z found ≡ ok o) (sym here) (ap (λ x. x.0) last),
        ),
      )

  get_role_by_id-eq-ok :
      (role_id : String) (s t : Store v) (role : LoadedRole)
      → get_role_by_id v role_id s ≡ (ok role, t)
      → t ≡ s
  unfolding get_role_by_id if_loaded
  get_role_by_id-eq-ok role_id s t role e =
      let (o, u, run, last) = continue-eq-ok (find_role v role_id s) _ e in
      let (kept, _) = find_role-eq-ok role_id s u o run in
      elim (Option-cases o) [
        | inl missing ↦ absurd (ground arith)
        | inr (r, there) ↦ ground (arith, kept)
      ]

module _ (v : Environment) (w : IsSound v) where
  none-ne-role : (s : Store v) (role : LoadedRole) → load_found_role v s none ≢ ok (some role)
  unfolding load_found_role
  none-ne-role s role e = ground (arith, ok_injective _ _ e)

  found_id :
      (role_id : String) (s : Store v) (row : Row Role)
      → query_one v (role_repository v) (λ role. role.id == role_id) s ≡ ok (some row)
      → row.id ≡ role_id
  found_id role_id s row e =
      let (holds, fits) = w.manager.find_one_some Role _ s.roles row e in
      let hit = ((and-eq-true (is_live v (role_repository v) row) (row.id == role_id)).0 fits).1 in
      (eq_iff row.id role_id).0 hit

  updated-RoleHas :
      (role_id : String) (names ids : Option (List String)) (s u : Store v) (answer : LoadedRole)
      (row : Row Role) (role : LoadedRole)
      → load_found_role v s (some row) ≡ ok (some role)
      → role.row.id ≡ role_id
      → (find_permissions v names ids >>= λ ps.
            replace_permissions v role ps >> get_role_by_id v role_id)
          s
        ≡ (ok answer, u)
      → (ps : List (Row Permission)) × ((find_permissions v names ids s).0 ≡ ok ps)
        × ((i : String) → RoleHas v w u role_id i ↔ AnyOf i (row_ids ps))
  updated-RoleHas role_id names ids s u answer row role loaded named e =
      let (ps, s1, run, rest) = continue-eq-ok (find_permissions v names ids s) _ e in
      let here : s1 ≡ s = sym (ap (λ x. x.1) run) ∙ find_permissions-KeepsStore v names ids s in
      let (a, t, changed, last) =
        continue-eq-ok (replace_permissions v role ps s) _ (rw here at rest) in
      let after : u ≡ t = get_role_by_id-eq-ok v role_id t u answer last in
      let sets = replace_permissions-RoleHas v w s t row role ps loaded changed in
      (
        ps,
        ap (λ x. x.0) run,
        λ i.
            subst (λ z. RoleHas v w z role_id i ↔ AnyOf i (row_ids ps)) (sym after)
              (subst (λ j. RoleHas v w t j i ↔ AnyOf i (row_ids ps)) named (sets i)),
      )

  -- `updateRolePermissions` that does not throw leaves the role with exactly the permissions that
  -- `findPermissions` finds for the names or ids that it was given.
  pub update_role_permissions-RoleHas :
      (role_id : String) (names ids : Option (List String)) (s u : Store v) (answer : LoadedRole)
      → update_role_permissions v role_id names ids s ≡ (ok answer, u)
      → (ps : List (Row Permission)) × ((find_permissions v names ids s).0 ≡ ok ps)
        × ((i : String) → RoleHas v w u role_id i ↔ AnyOf i (row_ids ps))
  unfolding update_role_permissions if_loaded
  update_role_permissions-RoleHas role_id names ids s u answer e =
      let (o, t, run, rest) = continue-eq-ok (find_role v role_id s) _ e in
      let (kept, (found, seen, loads)) = find_role-eq-ok v role_id s t o run in
      elim (Option-cases o) [
        | inl missing ↦ absurd (ground arith)
        | inr (role, there) ↦ elim (Option-cases found) [
          | inl none_found ↦ absurd (
              none-ne-role s role (ap (load_found_role v s) (sym none_found) ∙ loads ∙ ap ok there))
          | inr (row, row_found) ↦
              let loaded : load_found_role v s (some row) ≡ ok (some role) =
                ap (load_found_role v s) (sym row_found) ∙ loads ∙ ap ok there in
              let (same, _, _) = load_found_role-rows v w s row role loaded in
              let named =
                ap (λ (r : Row Role). r.id) same
                ∙ found_id role_id s row (seen ∙ ap ok row_found) in
              updated-RoleHas role_id names ids s u answer row role loaded named
                (rw (there, kept) at rest)
        ]
      ]
