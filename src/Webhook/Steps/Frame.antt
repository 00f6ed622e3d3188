-- ===== src/Webhook/Steps/Frame.antt =====
-- What the shared steps leave alone.
use api_payment.Common.{Bool, false, refl, String, ◌≡◌, ap, ◌∙◌, Option, arith}
use api_payment.Platform.{Row, TypeOrm}
use api_payment.Platform.Dates.{Date, DateParsers}
use api_payment.Common.Exec.{Result, ok, throw, Exec, continue, continue-keeps}
use api_payment.Database.{Db, Repository, update}
use api_payment.Transaction.Service.{
  CreateTransactionFromWebhook, create_from_webhook, update_from_webhook,
}
use api_payment.Webhook.Event.{WebhookEvent}
use api_payment.Webhook.Payload.{WebhookPayload}
use api_payment.Webhook.EventLog.{log_event}
use api_payment.Webhook.Steps.{
  if_valid, create_transaction, update_transaction, save_and_update, log_processed,
}

module _ (o : TypeOrm) (d : DateParsers) {T : Type 0} where
  pub update_transaction-frame :
      (code : String) (name : WebhookEvent) (description : Option String) (event : WebhookPayload T)
      (db : Db o)
      → let after = (update_transaction o d code name description event db).1 in
        after ≡ record db { transactions = after.transactions }
  unfolding update_transaction update_from_webhook
  update_transaction-frame code name description event db = ground arith

  pub create_transaction-frame :
      (dated : Date → CreateTransactionFromWebhook) (event : WebhookPayload T) (db : Db o)
      → let after = (create_transaction o d dated event db).1 in
        after ≡ record db { transactions = after.transactions }
  unfolding create_transaction create_from_webhook
  create_transaction-frame dated event db = ground arith

  -- A handler's writes before that call leave the log alone if its update of the entity does.
  pub update_transaction-event_logs :
      (code : String) (name : WebhookEvent) (description : Option String) (event : WebhookPayload T)
      (db : Db o)
      → (update_transaction o d code name description event db).1.event_logs ≡ db.event_logs
  update_transaction-event_logs code name description event db =
      ap (λ db. db.event_logs) (update_transaction-frame code name description event db)

  pub log_processed-frame :
      (code entity_type id client_id : String) (name : WebhookEvent) (event : WebhookPayload T)
      (db : Db o)
      → let after = (log_processed o d code entity_type id name event client_id db).1 in
        after ≡ record db { event_logs = after.event_logs }
  unfolding log_processed log_event
  log_processed-frame code entity_type id client_id name event db = ground arith

module _ (o : TypeOrm) (d : DateParsers) {T E : Type 0} where
  -- Saving an entity and updating its transaction leaves the log alone.
  pub save_and_update-event_logs :
      (repository : Repository o E) (row : Row E) (code : String) (name : WebhookEvent)
      (description : Option String) (event : WebhookPayload T) (db : Db o)
      → ((t : o.Table E) → (repository.with_table t db).event_logs ≡ db.event_logs)
      → (save_and_update o d repository row code name description event db).1.event_logs
        ≡ db.event_logs
  unfolding save_and_update
  save_and_update-event_logs repository row code name description event db apart =
      continue-keeps (λ s. s.event_logs ≡ db.event_logs) (update o repository row db) _ (apart _)
        λ saved still.
          update_transaction-event_logs o d code name description event
            (update o repository row db).1
          ∙ still

-- Without a valid public key a handler writes nothing, whatever the slug of the provider names.
pub if_invalid-state :
    {S A : Type 0} (run : A → Exec S (Unit {0})) (valid : Bool) (provider : Result A) (s : S)
    → valid ≡ false
    → (continue provider (λ p. if_valid valid (run p)) s).1 ≡ s
if_invalid-state run valid (ok p) s h = rw h refl
if_invalid-state run valid (throw x) s h = refl
