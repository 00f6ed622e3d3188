-- ===== src/Webhook/Steps/Guarded.antt =====
-- Handlers that throw if their entity is missing.
use api_payment.Common.{String, ◌≡◌, refl, Bool, Option, none, some}
use api_payment.Common.Exec.{
  Result, ok, throw, Exception, Exec, continue, continue-keeps, continue-eq-ok, raise, not_found,
}
use api_payment.Platform.{Row, TypeOrm, IsLawful}
use api_payment.Platform.Dates.{DateParsers}
use api_payment.Database.{Db, Repository, find_one}
use api_payment.Webhook.Event.{WebhookEvent, value}
use api_payment.Webhook.Payload.{WebhookPayload}
use api_payment.Webhook.Steps.{if_found, process_found, process_in_sequence}
use api_payment.Webhook.Steps.Check.{IsAt}
use api_payment.Webhook.Steps.Replay.{process-IsAt, process-keeps_IsAt, process-refused}
use api_payment.Webhook.Steps.Batch.{IsGuarded}

module _ (o : TypeOrm) (laws : IsLawful o) (d : DateParsers) {T E : Type 0} (code : String)
    (name : WebhookEvent) (write : Row E → Exec (Db o) (Unit {0})) (entity_type client_id : String)
    (event : WebhookPayload T) where
  abbrev body : Option (Row E) → Exec (Db o) (Unit {0})
  body =
      if_found
        (λ row. process_in_sequence o d code name (write row) entity_type row.id event client_id)
        (raise (not_found code (value name)))

  body-takes :
      (found : Option (Row E)) (db db' : Db o) → body found db ≡ (ok tt, db') → IsAt o code name db'
  body-takes none db db' run = cc
  body-takes (some row) db db' run =
      process-IsAt o laws d code entity_type row.id client_id name (write row) event db db' run

  body-keeps :
      ((row : Row E) (db : Db o) → (write row db).1.event_logs ≡ db.event_logs)
      → (other : String) (found : Option (Row E)) (db : Db o) → IsAt o other name db
      → IsAt o other name (body found db).1
  body-keeps leaves other none db at = at
  body-keeps leaves other (some row) db at =
      process-keeps_IsAt o laws d other code entity_type row.id client_id name (write row) event db
        (leaves row) at

  body-refuses :
      (found : Result (Option (Row E))) (db : Db o)
      → IsAt o code name db
      → (x : Exception) × (continue found body db ≡ (throw x, db))
  body-refuses (throw x) db at = (x, refl)
  body-refuses (ok none) db at = (_, refl)
  body-refuses (ok (some row)) db at =
      process-refused o laws d code entity_type row.id client_id name (write row) event db at

module _ (o : TypeOrm) (laws : IsLawful o) (d : DateParsers) {T E : Type 0}
    (repository : Repository o E) (where_code : String → E → Bool)
    (code_of : WebhookPayload T → String) (name : WebhookEvent)
    (write : WebhookPayload T → Row E → Exec (Db o) (Unit {0}))
    (entity_type client_id : String) where
  -- The loop over such a handler is bound to the sequence, if the handler's own writes leave the log
  -- alone.
  pub process_found-IsGuarded :
      ((event : WebhookPayload T) (row : Row E) (db : Db o)
        → (write event row db).1.event_logs ≡ db.event_logs)
      → IsGuarded o code_of name λ event.
        process_found o d repository
          (where_code (code_of event))
          (code_of event)
          name
          (write event)
          entity_type
          event
          client_id
  process_found-IsGuarded leaves = record {
    takes = λ event db db' run.
        let (found, db1, read, rest) =
          continue-eq-ok (find_one o repository (where_code (code_of event)) db) _ run in
        body-takes o laws d (code_of event) name (write event) entity_type client_id event found db1
          db' rest;
    keeps = λ other event db at.
        continue-keeps (IsAt o other name) (find_one o repository (where_code (code_of event)) db) _
          at
          λ found still.
            body-keeps o laws d (code_of event) name (write event) entity_type client_id event
              (leaves event) other found db still;
    refuses = λ event db at.
        body-refuses o laws d (code_of event) name (write event) entity_type client_id event _ db
          at;
  }
