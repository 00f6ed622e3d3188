-- ===== src/Webhook/Steps/Batch.antt =====
-- Batches: what the loop of a handler does with the events of one job, and what it does when the
-- queue delivers the job once more.
use api_payment.Common.{String, ◌≡◌, List, [], ◌∷◌}
use api_payment.Common.Exec.{
  ok, throw, Exception, Exec, continue-keeps, for_each, for_each-throw, for_each-ok,
}
use api_payment.Platform.{TypeOrm}
use api_payment.Database.{Db}
use api_payment.Webhook.Event.{WebhookEvent}
use api_payment.Webhook.Steps.Check.{IsAt}

-- A round of a loop that is bound to the sequence of events: it takes the payment of its event to
-- `name` or throws, leaves every payment there that is there, and refuses an event of such a payment.
pub record IsGuarded (o : TypeOrm) {E : Type 0} (code_of : E → String) (name : WebhookEvent)
    (round : E → Exec (Db o) (Unit {0})) : Type 0 where
  pub takes : (e : E) (db db' : Db o) → round e db ≡ (ok tt, db') → IsAt o (code_of e) name db'
  pub keeps :
      (code : String) (e : E) (db : Db o) → IsAt o code name db → IsAt o code name (round e db).1
  pub refuses :
      (e : E) (db : Db o)
      → IsAt o (code_of e) name db
      → (x : Exception) × (round e db ≡ (throw x, db))

module _ (o : TypeOrm) {E : Type 0} (code_of : E → String) (name : WebhookEvent)
    (round : E → Exec (Db o) (Unit {0})) (guarded : IsGuarded o code_of name round) where
  for_each-keeps :
      (code : String) (es : List E) (db : Db o)
      → IsAt o code name db
      → IsAt o code name (for_each round es db).1
  unfolding for_each
  for_each-keeps code [] db at = at
  for_each-keeps code (e ∷ es) db at =
      continue-keeps (IsAt o code name) (round e db) (λ _. for_each round es)
        (guarded.keeps code e db at) λ done at1. for_each-keeps code es (round e db).1 at1

  -- Once the first event of a batch has been processed, the batch is refused with nothing written
  -- whenever it is run again, however the run over the other events ended.
  pub for_each-again :
      (e : E) (es : List E) (db db1 : Db o)
      → round e db ≡ (ok tt, db1)
      → let after = (for_each round (e ∷ es) db).1 in
        (x : Exception) × (for_each round (e ∷ es) after ≡ (throw x, after))
  for_each-again e es db db1 first =
      let left = (for_each round es db1).1 in
      let at = for_each-keeps (code_of e) es db1 (guarded.takes e db db1 first) in
      let (x, refused) = guarded.refuses e left at in
      rw (for_each-ok round e es db first) (x, for_each-throw round e es left refused)
