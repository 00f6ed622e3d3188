-- ===== src/Permissions/Clients/Invalidation.antt =====
-- The calls of permissions/services/permission.service.ts that change what a client is granted delete
-- the client's entries of the cache first.
use mathlib.Core.Path.{subst}
use api_payment.Common.{
  String, ◌≡◌, ◌≢◌, ◌↔◌, ◌∙◌, inl, inr, eq_iff, str_eq as ◌==◌, Bool-cases, arith,
}
use api_payment.Common.Exec.{ok}
use api_payment.Platform.Redis.{Json}
use api_payment.Permissions.Entities.{ClientRole, ClientPermission}
use api_payment.Permissions.Store.{Environment, Store}
use api_payment.Permissions.Cache.{cache_del}
use api_payment.Permissions.Clients.{
  client_permissions_key, client_direct_permissions_key, client_roles_key,
}
use api_payment.Permissions.Clients.Assignments.{invalidate_client_cache}
use api_payment.Permissions.Grants.{IsSound, DirectlyGranted, GrantedByRole}
use api_payment.Permissions.Clients.Rows.{OthersSame}
use api_payment.Permissions.Clients.Coherence.{CoherentFor, Coherent, Cached}

-- Redis carries out every deletion.
abbrev pub Deletes : Environment → Type 0
Deletes v = (key : String) (cache : v.redis.Cache) → (v.redis.del key cache).0 ≡ ok tt

module _ (v : Environment) (w : IsSound v) where
  -- The client has no entry in the cache.
  pub record IsForgotten (cache : v.redis.Cache) (c : String) : Type 0 where
    pub effective : (text : String) → ¬ w.redis.Entry cache (client_permissions_key c) text
    pub direct : (text : String) → ¬ w.redis.Entry cache (client_direct_permissions_key c) text
    pub by_role : (text : String) → ¬ w.redis.Entry cache (client_roles_key c) text

  -- The cache is true, and has no entry of the client `c`.
  pub record TrueWithout (c : String) (s : Store v) : Type 0 where
    pub forgotten : IsForgotten s.cache c
    pub others : (d : String) → c ≢ d → CoherentFor v w s d

  IsForgotten-CoherentFor : (s : Store v) (c : String) → IsForgotten s.cache c → CoherentFor v w s c
  IsForgotten-CoherentFor s c f = record {
    effective = λ text a entry. absurd (f.effective text entry);
    direct = λ text a entry. absurd (f.direct text entry);
    by_role = λ text a entry. absurd (f.by_role text entry);
  }

  pub TrueWithout-Coherent : (c : String) (s : Store v) → TrueWithout c s → Coherent v w s
  TrueWithout-Coherent c s h d = elim (Bool-cases (c == d)) [
    | inl same ↦
        subst (CoherentFor v w s) ((eq_iff c d).0 same) (IsForgotten-CoherentFor s c h.forgotten)
    | inr other ↦ h.others d (λ e. ground (arith, eq_iff c d))
  ]

  -- Deleting an entry keeps the others true.
  cache_del-Cached :
      {A : Type 0} (j : Json A) (cache : v.redis.Cache) (k key : String) (Good : A → Type 0)
      → Cached v w j cache key Good
      → Cached v w j (v.redis.del k cache).1 key Good
  cache_del-Cached j cache k key Good h text a entry read =
      h text a (w.redis.del_entry k cache key text entry) read

  cache_del-CoherentFor :
      (s : Store v) (k d : String) → CoherentFor v w s d → CoherentFor v w (cache_del v k s).1 d
  unfolding cache_del
  cache_del-CoherentFor s k d h = record {
    effective = cache_del-Cached v.names_json s.cache k (client_permissions_key d) _ h.effective;
    direct = cache_del-Cached v.names_json s.cache k (client_direct_permissions_key d) _ h.direct;
    by_role = cache_del-Cached v.roles_json s.cache k (client_roles_key d) _ h.by_role;
  }

  -- After `invalidateClientCache`
  pub invalidate_client_cache-TrueWithout :
      Deletes v
      → (c : String) (s : Store v) → Coherent v w s
      → TrueWithout c (invalidate_client_cache v c s).1
  unfolding invalidate_client_cache
  invalidate_client_cache-TrueWithout deletes c s h = record {
    forgotten = record {
      effective = λ text entry.
          w.redis.del_deletes (client_permissions_key c) s.cache text (deletes _ _) (
            w.redis.del_entry (client_direct_permissions_key c) _ _ text
              (w.redis.del_entry (client_roles_key c) _ _ text entry));
      direct = λ text entry.
          w.redis.del_deletes (client_direct_permissions_key c) _ text (deletes _ _)
            (w.redis.del_entry (client_roles_key c) _ _ text entry);
      by_role = λ text entry. w.redis.del_deletes (client_roles_key c) _ text (deletes _ _) entry;
    };
    others = λ d other. cache_del-CoherentFor _ (client_roles_key c) d (
        cache_del-CoherentFor _ (client_direct_permissions_key c) d
          (cache_del-CoherentFor s (client_permissions_key c) d (h d)));
  }

  module _ (c : String) (s : Store v) (h : TrueWithout c s) where
    -- A change of the rows of `c`
    pub change_permissions-TrueWithout :
        (t : v.manager.Table ClientPermission)
        → OthersSame v w (λ cp. cp.client_id) c s.client_permissions t
        → TrueWithout c (record s { client_permissions = t })
    change_permissions-TrueWithout t same = record {
      forgotten = h.forgotten;
      others = λ d other.
          let before = h.others d other in
          let moved = λ (name : String). direct_iff d other name in
          record {
            effective = λ text names entry read name.
                ground (arith, before.effective text names entry read name, moved name);
            direct = λ text names entry read name.
                ground (arith, before.direct text names entry read name, moved name);
            by_role = before.by_role;
          };
    }
      where
        direct_iff :
            (d : String) (other : c ≢ d) (name : String)
            → DirectlyGranted v w s d name
              ↔ DirectlyGranted v w (record s { client_permissions = t }) d name
        direct_iff d other name = (
          λ (cp, (holds, live), e, named).
              (cp, ((same cp (λ x. other (x ∙ e))).0 holds, live), e, named),
          λ (cp, (holds, live), e, named).
              (cp, ((same cp (λ x. other (x ∙ e))).1 holds, live), e, named),
        )

    pub change_roles-TrueWithout :
        (t : v.manager.Table ClientRole)
        → OthersSame v w (λ cr. cr.client_id) c s.client_roles t
        → TrueWithout c (record s { client_roles = t })
    change_roles-TrueWithout t same = record {
      forgotten = h.forgotten;
      others = λ d other.
          let before = h.others d other in
          let moved = λ (name : String). by_role_iff d other name in
          record {
            effective = λ text names entry read name.
                ground (arith, before.effective text names entry read name, moved name);
            direct = before.direct;
            by_role = λ text roles entry read name.
                ground (arith, before.by_role text roles entry read name, moved name);
          };
    }
      where
        by_role_iff :
            (d : String) (other : c ≢ d) (name : String)
            → GrantedByRole v w s d name ↔ GrantedByRole v w (record s { client_roles = t }) d name
        by_role_iff d other name = (
          λ (cr, (holds, live), e, role).
              (cr, ((same cr (λ x. other (x ∙ e))).0 holds, live), e, role),
          λ (cr, (holds, live), e, role).
              (cr, ((same cr (λ x. other (x ∙ e))).1 holds, live), e, role),
        )
