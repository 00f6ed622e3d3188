-- ===== src/Permissions/Clients/Coherence.antt =====
-- The cache of permissions/services/permission.service.ts against the tables: what an entry of a
-- client says is what the client is granted.
use mathlib.Core.Path.{subst}
use api_payment.Common.{
  String, ◌≡◌, ◌↔◌, sym, ap, ◌∙◌, inl, inr, Option, some, List, truthy, Option-cases, arith,
}
use api_payment.Common.Exec.{ok, Result-cases}
use api_payment.Common.Lists.{AnySuch, AnyOf}
use api_payment.Platform.Redis.{Json}
use api_payment.Permissions.Entities.{LoadedRole}
use api_payment.Permissions.Store.{Environment, Store}
use api_payment.Permissions.Cache.{cache_set, parsed, cache_ttl}
use api_payment.Permissions.Clients.{
  client_permissions_key, client_direct_permissions_key, client_roles_key,
}
use api_payment.Permissions.Clients.Keys.{
  client_permissions_key_injective, client_direct_permissions_key_injective,
  client_roles_key_injective, client_permissions_key-ne-direct, client_permissions_key-ne-roles,
  client_direct_permissions_key-ne-roles,
}
use api_payment.Permissions.Grants.{IsSound, DirectlyGranted, GrantedByRole, Granted, LoadedGrants}

module _ (v : Environment) (w : IsSound v) where
  -- What can be read under a key has the property.
  abbrev pub Cached : {A : Type 0} → Json A → v.redis.Cache → String → (A → Type 0) → Type 0
  Cached {A} j cache key Good =
      (text : String) (a : A) → w.redis.Entry cache key text → j.parse text ≡ some a → Good a

  abbrev pub Names : (String → Type 0) → List String → Type 0
  Names Has names = (name : String) → AnyOf name names ↔ Has name

  abbrev pub RolesName : (String → Type 0) → List (Option LoadedRole) → Type 0
  RolesName Has roles = (name : String) → AnySuch (LoadedGrants name) roles ↔ Has name

  -- The three entries of a client
  pub record CoherentFor (s : Store v) (client_id : String) : Type 0 where
    pub effective :
        Cached v.names_json s.cache
          (client_permissions_key client_id)
          (Names (Granted v w s client_id))
    pub direct :
        Cached v.names_json s.cache
          (client_direct_permissions_key client_id)
          (Names (DirectlyGranted v w s client_id))
    pub by_role :
        Cached v.roles_json s.cache
          (client_roles_key client_id)
          (RolesName (GrantedByRole v w s client_id))

  abbrev pub Coherent : Store v → Type 0
  Coherent s = (client_id : String) → CoherentFor s client_id

  truthy-eq-some : (o : Option String) (t : String) → truthy o ≡ some t → o ≡ some t
  truthy-eq-some o t h = ground arith

  -- A value that is answered from the cache was cached.
  pub cache_get-Cached :
      {A : Type 0} (j : Json A) (key : String) (Good : A → Type 0) (s : Store v) (a : A)
      → Cached j s.cache key Good
      → parsed j (v.redis.get key s.cache) ≡ some a
      → Good a
  unfolding parsed
  cache_get-Cached j key Good s a good h = elim (Result-cases (v.redis.get key s.cache)) [
    | inl (value, e) ↦ elim (Option-cases (truthy value)) [
      | inl empty ↦ absurd (ground arith)
      | inr (text, full) ↦
          let found : v.redis.get key s.cache ≡ ok (some text) =
            e ∙ ap ok (truthy-eq-some value text full) in
          good text a (w.redis.get_entry key text s.cache found) (ground arith)
    ]
    | inr (x, e) ↦ absurd (ground arith)
  ]

  -- An entry is one that was there, or the one that was set.
  pub Cached-cache_set :
      {A B : Type 0} (i : Json A) (j : Json B) (k key : String) (a : A) (Good : B → Type 0)
      (cache : v.redis.Cache)
      → (k ≡ key → (b : B) → j.parse (i.stringify a) ≡ some b → Good b)
      → Cached j cache key Good
      → Cached j (v.redis.set k (i.stringify a) cache_ttl cache).1 key Good
  Cached-cache_set i j k key a Good cache new old text b entry read =
      elim (w.redis.set_entry k (i.stringify a) cache_ttl cache key text entry) [
        | inl (same, value) ↦ new same b (subst (λ t. j.parse t ≡ some b) (sym value) read)
        | inr was ↦ old text b was read
      ]

  abbrev pub with_cache : Store v → v.redis.Cache → Store v
  with_cache s cache = record s { cache = cache }

  module _ (s : Store v) (h : Coherent s) (c : String) where
    -- Setting an entry of a client to what the client is granted keeps the cache true.
    pub cache_set_roles-Coherent :
        (roles : List (Option LoadedRole))
        → RolesName (GrantedByRole v w s c) roles
        → Coherent (cache_set v v.roles_json (client_roles_key c) roles s).1
    unfolding cache_set
    cache_set_roles-Coherent roles good d = record {
      effective =
          Cached-cache_set v.roles_json v.names_json (client_roles_key c) (client_permissions_key d)
            roles _ s.cache (λ e. absurd (client_permissions_key-ne-roles d c (sym e)))
            (h d).effective;
      direct =
          Cached-cache_set v.roles_json v.names_json (client_roles_key c)
            (client_direct_permissions_key d) roles _ s.cache
            (λ e. absurd (client_direct_permissions_key-ne-roles d c (sym e))) (h d).direct;
      by_role =
          Cached-cache_set v.roles_json v.roles_json (client_roles_key c) (client_roles_key d) roles
            _ s.cache
            (λ e b read.
              let same = w.roles_json.parse-stringify roles b read in
              subst (λ b. RolesName (GrantedByRole v w s d) b) same
                (subst (λ d. RolesName (GrantedByRole v w s d) roles)
                  (client_roles_key_injective c d e) good))
            (h d).by_role;
    }

    pub cache_set_direct-Coherent :
        (names : List String)
        → Names (DirectlyGranted v w s c) names
        → Coherent (cache_set v v.names_json (client_direct_permissions_key c) names s).1
    unfolding cache_set
    cache_set_direct-Coherent names good d = record {
      effective =
          Cached-cache_set v.names_json v.names_json (client_direct_permissions_key c)
            (client_permissions_key d) names _ s.cache
            (λ e. absurd (client_permissions_key-ne-direct d c (sym e))) (h d).effective;
      direct =
          Cached-cache_set v.names_json v.names_json (client_direct_permissions_key c)
            (client_direct_permissions_key d) names _ s.cache
            (λ e b read.
              let same = w.names_json.parse-stringify names b read in
              subst (λ b. Names (DirectlyGranted v w s d) b) same
                (subst (λ d. Names (DirectlyGranted v w s d) names)
                  (client_direct_permissions_key_injective c d e) good))
            (h d).direct;
      by_role =
          Cached-cache_set v.names_json v.roles_json (client_direct_permissions_key c)
            (client_roles_key d) names _ s.cache
            (λ e. absurd (client_direct_permissions_key-ne-roles c d e)) (h d).by_role;
    }

    pub cache_set_effective-Coherent :
        (names : List String)
        → Names (Granted v w s c) names
        → Coherent (cache_set v v.names_json (client_permissions_key c) names s).1
    unfolding cache_set
    cache_set_effective-Coherent names good d = record {
      effective =
          Cached-cache_set v.names_json v.names_json (client_permissions_key c)
            (client_permissions_key d) names _ s.cache
            (λ e b read.
              let same = w.names_json.parse-stringify names b read in
              subst (λ b. Names (Granted v w s d) b) same
                (subst (λ d. Names (Granted v w s d) names) (client_permissions_key_injective c d e)
                  good))
            (h d).effective;
      direct =
          Cached-cache_set v.names_json v.names_json (client_permissions_key c)
            (client_direct_permissions_key d) names _ s.cache
            (λ e. absurd (client_permissions_key-ne-direct c d e)) (h d).direct;
      by_role =
          Cached-cache_set v.names_json v.roles_json (client_permissions_key c) (client_roles_key d)
            names _ s.cache (λ e. absurd (client_permissions_key-ne-roles c d e)) (h d).by_role;
    }
