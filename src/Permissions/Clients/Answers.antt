-- ===== src/Permissions/Clients/Answers.antt =====
-- The queries on clients of permissions/services/permission.service.ts, where the cache is true.
use mathlib.Core.Path.{subst}
use api_payment.Common.{String, ◌≡◌, refl, inl, inr, Option, List, [], Option-cases, arith}
use api_payment.Common.Exec.{
  Result, ok, throw, Exec, Exception, continue, ok_injective, Result-cases,
}
use api_payment.Permissions.Entities.{LoadedRole}
use api_payment.Permissions.Store.{Environment, Store}
use api_payment.Permissions.Cache.{cache_get, cache_set, parsed}
use api_payment.Permissions.Clients.{
  client_permissions_key, client_direct_permissions_key, client_roles_key, add_all, add_roles,
  load_roles, load_direct, get_client_roles, get_client_direct_permissions,
  get_client_effective_permissions, set_effective,
}
use api_payment.Permissions.Grants.{IsSound, DirectlyGranted, GrantedByRole, Granted}
use api_payment.Permissions.Clients.Union.{add_all-AnyOf, add_roles-AnyOf}
use api_payment.Permissions.Clients.Loads.{load_direct-granted, load_roles-granted}
use api_payment.Permissions.Clients.Coherence.{
  Names, RolesName, Coherent, with_cache, cache_get-Cached, cache_set_roles-Coherent,
  cache_set_direct-Coherent, cache_set_effective-Coherent,
}

module _ (v : Environment) (w : IsSound v) where
  -- A run that writes at most the cache, keeps it true, and answers well if it answers.
  pub record Reads {A : Type 0} (s : Store v) (Good : A → Type 0) (x : Result A × Store v)
      : Type 0 where
    pub cache : v.redis.Cache
    pub kept : x.1 ≡ with_cache v w s cache
    pub true_after : Coherent v w (with_cache v w s cache)
    pub good : (a : A) → x.0 ≡ ok a → Good a

  Reads-pure :
      {A : Type 0} (s : Store v) (Good : A → Type 0) (a : A) (cache : v.redis.Cache)
      → Coherent v w (with_cache v w s cache)
      → Good a
      → Reads s Good (ok a, with_cache v w s cache)
  Reads-pure s Good a cache h g = record {
    cache = cache;
    kept = refl;
    true_after = h;
    good = λ b e. subst Good (ok_injective a b e) g;
  }

  Reads-throw :
      {A : Type 0} (s : Store v) (Good : A → Type 0) (x : Exception) (cache : v.redis.Cache)
      → Coherent v w (with_cache v w s cache)
      → Reads s Good (throw x, with_cache v w s cache)
  Reads-throw s Good x cache h = record {
    cache = cache;
    kept = refl;
    true_after = h;
    good = λ b e. cc;
  }

  Reads-bind :
      {A B : Type 0} (s : Store v) (Good : A → Type 0) (Next : B → Type 0) (x : Result A × Store v)
      (f : A → Exec (Store v) B)
      → Reads s Good x
      → ((a : A) (cache : v.redis.Cache)
          → Good a
          → Coherent v w (with_cache v w s cache)
          → Reads s Next (f a (with_cache v w s cache)))
      → Reads s Next (continue x.0 f x.1)
  Reads-bind s Good Next (ok a, t) f r next =
      rw r.kept (next a r.cache (r.good a refl) r.true_after)
  Reads-bind s Good Next (throw e, t) f r next =
      rw r.kept (Reads-throw s Next e r.cache r.true_after)

  -- What runs after the cache was written runs from the first state.
  Reads-lift :
      {A : Type 0} {Good : A → Type 0} (s : Store v) (k : v.redis.Cache) {x : Result A × Store v}
      → Reads (with_cache v w s k) Good x
      → Reads s Good x
  Reads-lift s k r = record {
    cache = r.cache;
    kept = r.kept;
    true_after = r.true_after;
    good = r.good;
  }

  module _ (s : Store v) (h : Coherent v w s) (c : String) where
    pub get_client_roles-Reads :
        Reads s (RolesName v w (GrantedByRole v w s c)) (get_client_roles v c s)
    unfolding get_client_roles cache_get cache_set
    get_client_roles-Reads =
        elim (Option-cases (parsed v.roles_json (v.redis.get (client_roles_key c) s.cache))) [
          | inr (roles, hit) ↦ rw hit (
              Reads-pure s _ roles s.cache h (
                cache_get-Cached v w v.roles_json (client_roles_key c) _ s roles (h c).by_role hit))
          | inl miss ↦ elim (Result-cases (load_roles v c s)) [
            | inl (roles, loaded) ↦
                let good : RolesName v w (GrantedByRole v w s c) roles =
                  λ name. load_roles-granted v w s c name roles loaded in
                rw (miss, loaded)
                  (Reads-pure s _ roles _ (cache_set_roles-Coherent v w s h c roles good) good)
            | inr (x, failed) ↦ rw (miss, failed) (Reads-throw s _ x s.cache h)
          ]
        ]

    pub get_client_direct_permissions-Reads :
        Reads s (Names v w (DirectlyGranted v w s c)) (get_client_direct_permissions v c s)
    unfolding get_client_direct_permissions cache_get cache_set
    get_client_direct_permissions-Reads =
        elim (Option-cases
          (parsed v.names_json (v.redis.get (client_direct_permissions_key c) s.cache))) [
            | inr (names, hit) ↦ rw hit (
                Reads-pure s _ names s.cache h (
                  cache_get-Cached v w v.names_json (client_direct_permissions_key c) _ s names
                    (h c).direct hit))
            | inl miss ↦ elim (Result-cases (load_direct v c s)) [
              | inl (names, loaded) ↦
                  let good : Names v w (DirectlyGranted v w s c) names =
                    λ name. load_direct-granted v w s c name names loaded in
                  rw (miss, loaded)
                    (Reads-pure s _ names _ (cache_set_direct-Coherent v w s h c names good) good)
              | inr (x, failed) ↦ rw (miss, failed) (Reads-throw s _ x s.cache h)
            ]
          ]

  -- `new Set(directPermissions)` with the names of the roles
  union-Granted :
      (s : Store v) (c : String) (names : List String) (roles : List (Option LoadedRole))
      (result : List String)
      → Names v w (DirectlyGranted v w s c) names
      → RolesName v w (GrantedByRole v w s c) roles
      → add_roles (add_all [] names) roles ≡ ok result
      → Names v w (Granted v w s c) result
  union-Granted s c names roles result direct by_role e x = ground (
    arith,
    direct x,
    by_role x,
    add_all-AnyOf [] names x,
    add_roles-AnyOf (add_all [] names) roles result x e,
  )

  set_union-Reads :
      (s : Store v) (h : Coherent v w s) (c : String) (names : List String)
      (roles : List (Option LoadedRole))
      → Names v w (DirectlyGranted v w s c) names
      → RolesName v w (GrantedByRole v w s c) roles
      → Reads s
          (Names v w (Granted v w s c))
          (continue (add_roles (add_all [] names) roles) (set_effective v c) s)
  unfolding set_effective cache_set
  set_union-Reads s h c names roles direct by_role =
      elim (Result-cases (add_roles (add_all [] names) roles)) [
        | inl (result, e) ↦
            let good = union-Granted s c names roles result direct by_role e in
            rw e (Reads-pure s _ result _ (cache_set_effective-Coherent v w s h c result good) good)
        | inr (x, e) ↦ rw e (Reads-throw s _ x s.cache h)
      ]

  pub get_client_effective_permissions-Reads :
      (s : Store v) (h : Coherent v w s) (c : String)
      → Reads s (Names v w (Granted v w s c)) (get_client_effective_permissions v c s)
  unfolding get_client_effective_permissions cache_get
  get_client_effective_permissions-Reads s h c =
      elim (Option-cases (parsed v.names_json (v.redis.get (client_permissions_key c) s.cache))) [
        | inr (names, hit) ↦ rw hit (
            Reads-pure s _ names s.cache h (
              cache_get-Cached v w v.names_json (client_permissions_key c) _ s names (h c).effective
                hit))
        | inl miss ↦ rw miss (
            Reads-bind s _ _ _ _ (get_client_direct_permissions-Reads s h c) λ names k direct hk.
              Reads-lift s k (
                Reads-bind (with_cache v w s k) _ _ _ _
                  (get_client_roles-Reads (with_cache v w s k) hk c)
                  λ roles l by_role hl.
                    Reads-lift (with_cache v w s k) l
                      (set_union-Reads (with_cache v w s l) hl c names roles direct by_role)))
      ]
