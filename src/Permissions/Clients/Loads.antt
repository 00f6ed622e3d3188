-- ===== src/Permissions/Clients/Loads.antt =====
-- What the loads of permissions/services/permission.service.ts answer.
use api_payment.Common.{
  String, ◌≡◌, ◌↔◌, refl, sym, ◌∙◌, inl, inr, Bool, true, ◌&&◌, Option, none, some, List, [], ◌∷◌,
  str_eq as ◌==◌, eq_iff, arith,
}
use mathlib.Core.Path.{subst}
use api_payment.Common.Exec.{Result, ok, throw, ok_injective}
use api_payment.Common.Lists.{AnySuch, AnyOf, AnyOf-AnySuch, AnySuch-AnyOf}
use api_payment.Platform.{Row}
use api_payment.Permissions.Entities.{
  Permission, Role, RolePermission, ClientRole, ClientPermission, LoadedRole, LoadedRolePermission,
}
use api_payment.Permissions.Store.{
  Environment, Store, Repository, is_live, query, query_one, permission_repository, role_repository,
  role_permission_repository, client_role_repository, client_permission_repository, and_then,
  query_each,
}
use api_payment.Permissions.Clients.{
  names_of, load_permission, load_role_permission, load_found_role, load_role, load_roles,
  load_direct,
}
use api_payment.Permissions.Grants.{
  IsSound, Lives, Named, DirectlyGranted, RoleGrants, RoleOf, GrantedByRole, HasName, LoadedName,
  LoadedGrants,
}

pub and_then-eq-ok :
    {A B : Type 0} (r : Result A) (f : A → Result B) {b : B}
    → and_then r f ≡ ok b
    → (a : A) × (r ≡ ok a) × (f a ≡ ok b)
and_then-eq-ok (ok a) f h = (a, refl, h)
and_then-eq-ok (throw x) f h = cc

iff_trans : {A B C : Type 0} → A ↔ B → B ↔ C → A ↔ C
iff_trans p q = (λ a. q.0 (p.0 a), λ c. p.1 (q.1 c))

iff_sym : {A B : Type 0} → A ↔ B → B ↔ A
iff_sym p = (p.1, p.0)

-- What a role that was found grants
abbrev OnRole : (v : Environment) (w : IsSound v) → Store v → String → Option (Row Role) → Type 0
OnRole v w s name none = ⊥
OnRole v w s name (some role) = RoleGrants v w s role name

-- Queries for each of several rows keep a property that each query keeps.
pub query_each-AnySuch :
    {A B : Type 0} (P : A → Type 0) (Q : B → Type 0) (f : A → Result B)
    → ((a : A) (b : B) → f a ≡ ok b → P a ↔ Q b)
    → (as' : List A) (bs : List B) → query_each f as' ≡ ok bs
    → AnySuch P as' ↔ AnySuch Q bs
unfolding query_each
query_each-AnySuch P Q f h [] bs e = rw (← ok_injective [] bs e) (λ h. h, λ h. h)
query_each-AnySuch P Q f h (a ∷ as') bs e =
    let (b, eb, rest) = and_then-eq-ok (f a) _ e in
    let (bs', ebs, last) = and_then-eq-ok (query_each f as') _ rest in
    let parts = ok_injective (b ∷ bs') bs last in
    let here = h a b eb in
    let there = query_each-AnySuch P Q f h as' bs' ebs in
    rw (← parts) (
      λ x. elim x [ inl y ↦ inl (here.0 y) | inr y ↦ inr (there.0 y) ],
      λ x. elim x [ inl y ↦ inl (here.1 y) | inr y ↦ inr (there.1 y) ],
    )

pub and-eq-true : (a b : Bool) → (a && b ≡ true) ↔ ((a ≡ true) × (b ≡ true))
and-eq-true a b = ground arith

names_of-AnySuch :
    (name : String) (ps : List (Option (Row Permission)))
    → AnyOf name (names_of ps) ↔ AnySuch (LoadedName name) ps
unfolding names_of
names_of-AnySuch name [] = ground arith
names_of-AnySuch name (none ∷ ps) = ground (arith, names_of-AnySuch name ps)
names_of-AnySuch name (some p ∷ ps) =
    ground (arith, names_of-AnySuch name ps, eq_iff p.fields.name "")

module _ (v : Environment) (w : IsSound v) (s : Store v) where
  module _ {E : Type 0} (r : Repository v E) (column : Row E → String) (x : String)
      (P : Row E → Type 0) where
    pub query-AnySuch :
        (rows : List (Row E))
        → query v r (λ row. column row == x) s ≡ ok rows
        → AnySuch P rows ↔ ((row : Row E) × Lives v w r s row × (column row ≡ x) × P row)
    query-AnySuch rows e =
        let found = w.manager.find_holds E _ (r.table s) rows e in
        (
          λ h.
              let (row, m, q) = AnySuch-AnyOf P rows h in
              let (holds, fits) = (found row).0 m in
              let (live, chosen) = (and-eq-true (is_live v r row) (column row == x)).0 fits in
              (row, (holds, live), (eq_iff (column row) x).0 chosen, q),
          λ (row, (holds, live), chosen, q).
              let same = (eq_iff (column row) x).1 chosen in
              let fits = (and-eq-true (is_live v r row) (column row == x)).1 (live, same) in
              AnyOf-AnySuch P row rows ((found row).1 (holds, fits)) q,
        )

  module _ {E : Type 0} (r : Repository v E) (i : String) where
    query_one-some :
        (P : Row E → Type 0) (row : Row E)
        → query_one v r (λ row. row.id == i) s ≡ ok (some row)
        → P row ↔ ((other : Row E) × Lives v w r s other × (other.id ≡ i) × P other)
    query_one-some P row e =
        let (holds, fits) = w.manager.find_one_some E _ (r.table s) row e in
        let (live, same) = (and-eq-true (is_live v r row) (row.id == i)).0 fits in
        let same' = (eq_iff row.id i).0 same in
        (
          λ q. (row, (holds, live), same', q),
          λ (other, (holds', live'), id', q).
              let rows =
                w.manager.ids_unique E (r.table s) other row holds' holds (id' ∙ sym same') in
              subst P rows q,
        )

    query_one-none :
        (P : Row E → Type 0)
        → query_one v r (λ row. row.id == i) s ≡ ok none
        → ¬ ((other : Row E) × Lives v w r s other × (other.id ≡ i) × P other)
    query_one-none P e (other, (holds, live), same, q) =
        let misses = w.manager.find_one_none E _ (r.table s) e other holds in
        let hits =
          (and-eq-true (is_live v r other) (other.id == i)).1 (live, (eq_iff other.id i).1 same) in
        cc

  load_permission-LoadedName :
      (i name : String) (o : Option (Row Permission))
      → load_permission v i s ≡ ok o
      → Named v w s i name ↔ LoadedName name o
  unfolding load_permission
  load_permission-LoadedName i name none e =
      (query_one-none (permission_repository v) i (HasName name) e, λ h. absurd h)
  load_permission-LoadedName i name (some p) e =
      let (there, back) = query_one-some (permission_repository v) i (HasName name) p e in
      (back, there)

  -- The names that `getClientDirectPermissions` loads are those that the client is granted directly.
  pub load_direct-granted :
      (client_id name : String) (names : List String)
      → load_direct v client_id s ≡ ok names
      → AnyOf name names ↔ DirectlyGranted v w s client_id name
  unfolding load_direct
  load_direct-granted client_id name names e =
      let (rows, found, rest) = and_then-eq-ok (query v (client_permission_repository v) _ s) _ e in
      let (ps, loaded, last) = and_then-eq-ok (query_each _ rows) _ rest in
      let granted = λ (cp : Row ClientPermission). Named v w s cp.fields.permission_id name in
      let each =
        query_each-AnySuch granted (LoadedName name) _
          (λ cp o. load_permission-LoadedName cp.fields.permission_id name o) rows ps loaded in
      let selected =
        query-AnySuch (client_permission_repository v) (λ cp. cp.fields.client_id) client_id granted
          rows found in
      rw (← ok_injective _ names last)
        (iff_trans (names_of-AnySuch name ps) (iff_trans (iff_sym each) selected))

  found-OnRole :
      (name i : String) (o : Option (Row Role))
      → query_one v (role_repository v) (λ role. role.id == i) s ≡ ok o
      → RoleOf v w s i name ↔ OnRole v w s name o
  found-OnRole name i none e =
      (query_one-none (role_repository v) i (λ role. RoleGrants v w s role name) e, λ h. absurd h)
  found-OnRole name i (some role) e =
      iff_sym (query_one-some (role_repository v) i (λ role. RoleGrants v w s role name) role e)

  load_role_permission-LoadedName :
      (name : String) (rp : Row RolePermission) (loaded : LoadedRolePermission)
      → load_role_permission v s rp ≡ ok loaded
      → Named v w s rp.fields.permission_id name ↔ LoadedName name loaded.permission
  unfolding load_role_permission
  load_role_permission-LoadedName name rp loaded e =
      let (o, found, last) = and_then-eq-ok (load_permission v rp.fields.permission_id s) _ e in
      rw (← ok_injective _ loaded last)
        (load_permission-LoadedName rp.fields.permission_id name o found)

  load_found_role-LoadedGrants :
      (name : String) (o : Option (Row Role)) (loaded : Option LoadedRole)
      → load_found_role v s o ≡ ok loaded
      → OnRole v w s name o ↔ LoadedGrants name loaded
  unfolding load_found_role
  load_found_role-LoadedGrants name none loaded e =
      rw (← ok_injective none loaded e) (λ h. h, λ h. h)
  load_found_role-LoadedGrants name (some role) loaded e =
      let (rows, found, rest) = and_then-eq-ok (query v (role_permission_repository v) _ s) _ e in
      let (rps, each, last) = and_then-eq-ok (query_each _ rows) _ rest in
      let granted = λ (rp : Row RolePermission). Named v w s rp.fields.permission_id name in
      let loads =
        query_each-AnySuch granted (λ (rp : LoadedRolePermission). LoadedName name rp.permission) _
          (load_role_permission-LoadedName name) rows rps each in
      let selected =
        query-AnySuch (role_permission_repository v) (λ rp. rp.fields.role_id) role.id granted rows
          found in
      rw (← ok_injective _ loaded last) (iff_trans (iff_sym selected) loads)

  load_role-LoadedGrants :
      (name : String) (cr : Row ClientRole) (loaded : Option LoadedRole)
      → load_role v s cr ≡ ok loaded
      → RoleOf v w s cr.fields.role_id name ↔ LoadedGrants name loaded
  unfolding load_role
  load_role-LoadedGrants name cr loaded e =
      let (o, found, rest) = and_then-eq-ok (query_one v (role_repository v) _ s) _ e in
      iff_trans (found-OnRole name cr.fields.role_id o found)
        (load_found_role-LoadedGrants name o loaded rest)

  -- The roles that `getClientRoles` loads grant what the client is granted by a role.
  pub load_roles-granted :
      (client_id name : String) (roles : List (Option LoadedRole))
      → load_roles v client_id s ≡ ok roles
      → AnySuch (LoadedGrants name) roles ↔ GrantedByRole v w s client_id name
  unfolding load_roles
  load_roles-granted client_id name roles e =
      let (rows, found, rest) = and_then-eq-ok (query v (client_role_repository v) _ s) _ e in
      let granted = λ (cr : Row ClientRole). RoleOf v w s cr.fields.role_id name in
      let each =
        query_each-AnySuch granted (LoadedGrants name) (load_role v s) (load_role-LoadedGrants name)
          rows roles rest in
      let selected =
        query-AnySuch (client_role_repository v) (λ cr. cr.fields.client_id) client_id granted rows
          found in
      iff_trans (iff_sym each) selected
