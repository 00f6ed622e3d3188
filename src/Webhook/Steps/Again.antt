-- ===== src/Webhook/Steps/Again.antt =====
-- A single event that comes again after its entity was found and it was processed.
use api_payment.Common.{String, ◌≡◌, ◌≢◌, refl, sym, ap, ◌∙◌, Bool, true, Option, none, some}
use api_payment.Common.Exec.{Result, ok, throw, Exception, Exec, continue, continue-eq-ok}
use api_payment.Platform.{Row, TypeOrm, IsLawful}
use api_payment.Platform.Dates.{DateParsers}
use api_payment.Database.{Db, Repository, update}
use api_payment.Transaction.Entity.{Transaction}
use api_payment.Webhook.Event.{WebhookEvent}
use api_payment.Webhook.EventLog.Entity.{WebhookEventLog}
use api_payment.Webhook.Payload.{WebhookPayload}
use api_payment.Webhook.Steps.{
  if_found, process_if_found, save_and_update, check_sequence, process_in_sequence,
}
use api_payment.Webhook.Steps.Frame.{log_processed-frame, update_transaction-frame}
use api_payment.Webhook.Steps.Check.{IsAt, check_sequence-state}
use api_payment.Webhook.Steps.Replay.{process-IsAt, process-refused}

module _ (o : TypeOrm) (laws : IsLawful o) (d : DateParsers) {T E : Type 0}
    (repository : Repository o E) (p : E → Bool) (code : String) (name : WebhookEvent)
    (entity_type client_id : String) (event : WebhookPayload T) where
  -- The log is no part of the repository's table.
  abbrev IsApart : Type 0
  IsApart =
      (db : Db o) (t : o.Table WebhookEventLog)
      → repository.table (record db { event_logs = t }) ≡ repository.table db

  -- After a run that ended well, an entity is still found if the writes keep it so.
  pub process-keeps_found :
      (write : Exec (Db o) (Unit {0})) (id : String) (db db' : Db o)
      → IsApart
      → ((db1 : Db o) → write db ≡ (ok tt, db1) → o.find_one E p (repository.table db1) ≢ ok none)
      → process_in_sequence o d code name write entity_type id event client_id db ≡ (ok tt, db')
      → o.find_one E p (repository.table db') ≢ ok none
  unfolding process_in_sequence
  process-keeps_found write id db db' apart still run missing =
      let (checked, db1, passed, rest) = continue-eq-ok (check_sequence o code name db) _ run in
      let (written, db2, wrote, logged) = continue-eq-ok (write db1) _ rest in
      let same = ap (λ s. s.1) (sym passed) ∙ check_sequence-state o code name db in
      let frame = log_processed-frame o d code entity_type id client_id name event db2 in
      let left = sym (ap (λ s. s.1) logged) ∙ frame in
      still db2 (rw same at wrote)
        (ap (o.find_one E p) (sym (ap repository.table left ∙ apart db2 _)) ∙ missing)

  -- What is found is refused.
  pub found-refused :
      (write : Row E → Exec (Db o) (Unit {0})) (missing : Exec (Db o) (Unit {0}))
      (found : Result (Option (Row E))) (db : Db o)
      → IsAt o code name db
      → found ≢ ok none
      → (x : Exception) × (continue found
            (if_found
              (λ row.
                process_in_sequence o d code name (write row) entity_type row.id event client_id)
              missing)
            db
          ≡ (throw x, db))
  found-refused write missing (throw x) db at h = (x, refl)
  found-refused write missing (ok none) db at h = absurd (h refl)
  found-refused write missing (ok (some row)) db at h =
      process-refused o laws d code entity_type row.id client_id name (write row) event db at

module _ (o : TypeOrm) (laws : IsLawful o) (d : DateParsers) {T E : Type 0}
    (repository : Repository o E) (p : E → Bool) (code : String) (name : WebhookEvent)
    (entity_type client_id : String) (event : WebhookPayload T) (description : Option String)
    (change : E → E)
    (get : (t : o.Table E) (db : Db o) → repository.table (repository.with_table t db) ≡ t)
    (apart : IsApart o laws d repository p code name entity_type client_id event)
    (apart_too : (db : Db o) (t : o.Table Transaction)
      → repository.table (record db { transactions = t }) ≡ repository.table db)
    (fits : (e : E) → p e ≡ true → p (change e) ≡ true) where
  abbrev saves : Row E → Exec (Db o) (Unit {0})
  saves row =
      save_and_update o d repository (record row { fields = change row.fields }) code name
        description event

  -- After the change was saved, the entity is still found.
  saves-keeps_found :
      (row : Row E) (db db' : Db o)
      → o.find_one E p (repository.table db) ≡ ok (some row)
      → saves row db ≡ (ok tt, db')
      → o.find_one E p (repository.table db') ≢ ok none
  unfolding save_and_update
  saves-keeps_found row db db' found run missing =
      let after = record row { fields = change row.fields } in
      let (saved, db1, stored, rest) = continue-eq-ok (update o repository after db) _ run in
      let table = ap (λ s. (s.0, repository.table s.1)) stored in
      let kept =
        laws.update_found E p row saved after.fields (repository.table db) _ found
          (ap (λ t. ((o.update E after (repository.table db)).0, t)) (sym (get _ db)) ∙ table)
          (fits row.fields (laws.found_fits E p (repository.table db) row found)) in
      let left =
        sym (ap (λ s. s.1) rest) ∙ update_transaction-frame o d code name description event db1 in
      kept (ap (o.find_one E p) (sym (ap repository.table left ∙ apart_too db1 _)) ∙ missing)

  -- A handler that finds its entity, changes it and updates its transaction is refused when the
  -- event comes again.
  pub process_if_found-again :
      (missing : Exec (Db o) (Unit {0})) (row : Row E) (db db' : Db o)
      → o.find_one E p (repository.table db) ≡ ok (some row)
      → process_if_found o d repository p code name saves entity_type event client_id missing db
        ≡ (ok tt, db')
      → (x : Exception) × (process_if_found o d repository p code name saves entity_type event
            client_id missing db'
          ≡ (throw x, db'))
  process_if_found-again missing row db db' found run =
      let processed = rw found at run in
      found-refused o laws d repository p code name entity_type client_id event saves missing _ db'
        (process-IsAt o laws d code entity_type row.id client_id name (saves row) event db db'
          processed)
        (process-keeps_found o laws d repository p code name entity_type client_id event (saves row)
          row.id db db' apart (λ db1. saves-keeps_found row db db1 found) processed)
