-- ===== src/Permissions/Clients/Decision.antt =====
-- `clientHasPermission` against the tables.
use mathlib.Core.Path.{subst}
use api_payment.Common.{
  String, ◌≡◌, ◌↔◌, ◌⊎◌, refl, sym, ap, ◌∙◌, Bool, true, ◌||◌, Option, none, some, List, [], ◌∷◌,
  eq_iff, arith,
}
use api_payment.Common.Exec.{ok, ok_injective, continue-eq-ok, continue-keeps, pure}
use api_payment.Common.Lists.{AnySuch, includes, AnySuch-AnyOf, AnyOf-AnySuch}
use api_payment.Permissions.Name.{ParsedPermission, parse_permission, matches_permission}
use api_payment.Permissions.Name.Hierarchy.{any_grants, check_permission_hierarchy-any}
use api_payment.Permissions.Store.{Environment, Store}
use api_payment.Permissions.Clients.{
  get_client_effective_permissions, client_has_permission, grants_name,
}
use api_payment.Permissions.Grants.{IsSound, Granted}
use api_payment.Permissions.Clients.Answers.{Reads, get_client_effective_permissions-Reads}
use api_payment.Permissions.Clients.Coherence.{Names, Coherent, with_cache}

abbrev pub MatchesParsed : Option ParsedPermission → (held : String) → Type 0
MatchesParsed none held = ⊥
MatchesParsed (some r) held = matches_permission r held ≡ true

-- The name `held` gives what `required` asks for: it is that name, or `matchesPermission` says so of the
-- parts of `required`.
abbrev pub Grants : (required held : String) → Type 0
Grants required held = (held ≡ required) ⊎ MatchesParsed (parse_permission required) held

any_grants-AnySuch :
    (required : String) (o : Option ParsedPermission) (names : List String)
    → (includes names required || any_grants names o ≡ true)
      ↔ AnySuch (λ held. (held ≡ required) ⊎ MatchesParsed o held) names
any_grants-AnySuch required none [] = ground arith
any_grants-AnySuch required (some r) [] = ground arith
any_grants-AnySuch required none (n ∷ ns) =
    ground (arith, eq_iff n required, any_grants-AnySuch required none ns)
any_grants-AnySuch required (some r) (n ∷ ns) =
    ground (arith, eq_iff n required, any_grants-AnySuch required (some r) ns)

grants_name-AnySuch :
    (names : List String) (required : String)
    → (grants_name names required ≡ true) ↔ AnySuch (Grants required) names
unfolding grants_name
grants_name-AnySuch [] required = ground arith
grants_name-AnySuch (n ∷ ns) required =
    rw check_permission_hierarchy-any
      (any_grants-AnySuch required (parse_permission required) (n ∷ ns))

module _ (v : Environment) (w : IsSound v) where
  grants_name-Granted :
      (s : Store v) (c required : String) (names : List String)
      → Names v w (Granted v w s c) names
      → (grants_name names required ≡ true)
        ↔ ((held : String) × Granted v w s c held × Grants required held)
  grants_name-Granted s c required names good =
      let says = grants_name-AnySuch names required in
      (
        λ h.
            let (held, m, g) = AnySuch-AnyOf (Grants required) names (says.0 h) in
            (held, (good held).0 m, g),
        λ (held, m, g). says.1 (AnyOf-AnySuch (Grants required) held names ((good held).1 m) g),
      )

  -- Where the cache is true, `clientHasPermission` that does not throw answers true exactly when the
  -- tables grant the client, directly or by one of its roles, a name that gives the required one; it
  -- leaves the tables as they were and the cache true.
  pub client_has_permission-Granted :
      (s t : Store v) (c required : String) (b : Bool)
      → Coherent v w s
      → client_has_permission v c required s ≡ (ok b, t)
      → ((b ≡ true) ↔ ((held : String) × Granted v w s c held × Grants required held))
        × ((k : v.redis.Cache) × (t ≡ with_cache v w s k))
        × Coherent v w t
  unfolding client_has_permission
  client_has_permission-Granted s t c required b h e =
      let (names, u, run, last) = continue-eq-ok (get_client_effective_permissions v c s) _ e in
      let r =
        subst (Reads v w s (Names v w (Granted v w s c))) run
          (get_client_effective_permissions-Reads v w s h c) in
      let answer = ok_injective _ b (ap (λ x. x.0) last) in
      let after : with_cache v w s r.cache ≡ t = sym r.kept ∙ ap (λ x. x.1) last in
      (
        subst (λ a. (a ≡ true) ↔ ((held : String) × Granted v w s c held × Grants required held))
            answer (grants_name-Granted s c required names (r.good names refl)),
        (r.cache, sym after),
        subst (Coherent v w) after r.true_after,
      )

  -- An answer, or a failure, leaves the cache true.
  pub client_has_permission-Coherent :
      (s : Store v) (c required : String)
      → Coherent v w s
      → Coherent v w (client_has_permission v c required s).1
  unfolding client_has_permission
  client_has_permission-Coherent s c required h =
      let r = get_client_effective_permissions-Reads v w s h c in
      continue-keeps (Coherent v w) (get_client_effective_permissions v c s)
        (λ names. pure (grants_name names required))
        (subst (Coherent v w) (sym r.kept) r.true_after) (λ a k. k)
