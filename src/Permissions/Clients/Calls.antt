-- ===== src/Permissions/Clients/Calls.antt =====
-- Sequences of calls on clients.
use mathlib.Core.Path.{subst}
use api_payment.Common.{String, ◌≡◌, ◌↔◌, sym, Bool, true, List, [], ◌∷◌}
use api_payment.Common.Exec.{Result, ok}
use api_payment.Permissions.Store.{Environment, Store}
use api_payment.Permissions.Clients.{
  get_client_roles, get_client_direct_permissions, client_has_permission,
}
use api_payment.Permissions.Clients.Assignments.{
  assign_role_to_client, remove_role_from_client, assign_permission_to_client,
  assign_permissions_to_client, remove_permission_from_client, remove_permissions_from_client,
  update_client_permissions,
}
use api_payment.Permissions.Grants.{IsSound, Granted}
use api_payment.Permissions.Clients.Coherence.{Coherent}
use api_payment.Permissions.Clients.Answers.{
  Reads, get_client_roles-Reads, get_client_direct_permissions-Reads,
}
use api_payment.Permissions.Clients.Decision.{
  Grants, client_has_permission-Coherent, client_has_permission-Granted,
}
use api_payment.Permissions.Clients.Invalidation.{Deletes}
use api_payment.Permissions.Clients.Preserved.{
  assign_permission_to_client-Coherent, assign_permissions_to_client-Coherent,
  remove_permission_from_client-Coherent, remove_permissions_from_client-Coherent,
  update_client_permissions-Coherent,
}
use api_payment.Permissions.Clients.RolesPreserved.{
  assign_role_to_client-Coherent, remove_role_from_client-Coherent,
}

-- A call of the service on a client
pub data Call : Type 0 where
  assign_role : (client_id role_id : String) → Call
  remove_role : (client_id role_id : String) → Call
  assign_permission : (client_id permission_name : String) → Call
  remove_permission : (client_id permission_name : String) → Call
  assign_permissions : (client_id : String) (permission_names : List String) → Call
  remove_permissions : (client_id : String) (permission_names : List String) → Call
  update_permissions : (client_id : String) (permission_names : List String) → Call
  read_roles : (client_id : String) → Call
  read_direct_permissions : (client_id : String) → Call
  ask_permission : (client_id permission_name : String) → Call

module _ (v : Environment) where
  -- The store after a call, whether it threw or not
  unfoldable pub after_call : Call → Store v → Store v
  after_call (assign_role c r) s = (assign_role_to_client v c r s).1
  after_call (remove_role c r) s = (remove_role_from_client v c r s).1
  after_call (assign_permission c n) s = (assign_permission_to_client v c n s).1
  after_call (remove_permission c n) s = (remove_permission_from_client v c n s).1
  after_call (assign_permissions c ns) s = (assign_permissions_to_client v c ns s).1
  after_call (remove_permissions c ns) s = (remove_permissions_from_client v c ns s).1
  after_call (update_permissions c ns) s = (update_client_permissions v c ns s).1
  after_call (read_roles c) s = (get_client_roles v c s).1
  after_call (read_direct_permissions c) s = (get_client_direct_permissions v c s).1
  after_call (ask_permission c n) s = (client_has_permission v c n s).1

  unfoldable pub after_calls : List Call → Store v → Store v
  after_calls [] s = s
  after_calls (k ∷ ks) s = after_calls ks (after_call k s)

module _ (v : Environment) (w : IsSound v) where
  Reads-Coherent :
      {A : Type 0} {Good : A → Type 0} (s : Store v) (x : Result A × Store v)
      → Reads v w s Good x
      → Coherent v w x.1
  Reads-Coherent s x r = subst (Coherent v w) (sym r.kept) r.true_after

  after_call-Coherent :
      Deletes v → (k : Call) (s : Store v) → Coherent v w s → Coherent v w (after_call v k s)
  unfolding after_call
  after_call-Coherent d (assign_role c r) s h = assign_role_to_client-Coherent v w c d r s h
  after_call-Coherent d (remove_role c r) s h = remove_role_from_client-Coherent v w c d r s h
  after_call-Coherent d (assign_permission c n) s h =
      assign_permission_to_client-Coherent v w c d n s h
  after_call-Coherent d (remove_permission c n) s h =
      remove_permission_from_client-Coherent v w c d n s h
  after_call-Coherent d (assign_permissions c ns) s h =
      assign_permissions_to_client-Coherent v w c d ns s h
  after_call-Coherent d (remove_permissions c ns) s h =
      remove_permissions_from_client-Coherent v w c d ns s h
  after_call-Coherent d (update_permissions c ns) s h =
      update_client_permissions-Coherent v w c d ns s h
  after_call-Coherent d (read_roles c) s h = Reads-Coherent s _ (get_client_roles-Reads v w s h c)
  after_call-Coherent d (read_direct_permissions c) s h =
      Reads-Coherent s _ (get_client_direct_permissions-Reads v w s h c)
  after_call-Coherent d (ask_permission c n) s h = client_has_permission-Coherent v w s c n h

  -- Where Redis carries out every deletion, any sequence of calls on clients keeps the cache true,
  -- also where calls throw: what an entry of a client says is what the tables grant the client.
  pub after_calls-Coherent :
      Deletes v
      → (ks : List Call) (s : Store v) → Coherent v w s
      → Coherent v w (after_calls v ks s)
  unfolding after_calls
  after_calls-Coherent d [] s h = h
  after_calls-Coherent d (k ∷ ks) s h =
      after_calls-Coherent d ks (after_call v k s) (after_call-Coherent d k s h)

  pub no_entries-Coherent :
      (s : Store v) → ((key text : String) → ¬ w.redis.Entry s.cache key text) → Coherent v w s
  no_entries-Coherent s none_there c = record {
    effective = λ text a entry. absurd (none_there _ text entry);
    direct = λ text a entry. absurd (none_there _ text entry);
    by_role = λ text a entry. absurd (none_there _ text entry);
  }

  -- After any sequence of calls on clients from an empty cache, where Redis carries out every
  -- deletion, `clientHasPermission` that does not throw answers true exactly when the tables grant the
  -- client, directly or by one of its roles, a name that gives the required one.
  pub after_calls-client_has_permission :
      Deletes v
      → (ks : List Call) (s t : Store v) (c required : String) (b : Bool)
      → ((key text : String) → ¬ w.redis.Entry s.cache key text)
      → client_has_permission v c required (after_calls v ks s) ≡ (ok b, t)
      → (b ≡ true)
        ↔ ((held : String) × Granted v w (after_calls v ks s) c held × Grants required held)
  after_calls-client_has_permission d ks s t c required b empty e =
      let h = after_calls-Coherent d ks s (no_entries-Coherent s empty) in
      (client_has_permission-Granted v w (after_calls v ks s) t c required b h e).0
