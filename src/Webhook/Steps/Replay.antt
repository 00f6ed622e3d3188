-- ===== src/Webhook/Steps/Replay.antt =====
-- The events of a payment that come again or out of order (the body that the handlers of
-- src/webhook-processor/services share).
use api_payment.Common.{
  String, ◌≡◌, refl, ◌∙◌, false, truthy_text, inl, inr, Bool-cases, sym, ap, eq_refl,
}
use api_payment.Common.Exec.{
  Result, ok, throw, Exception, Result-cases, continue-pure, continue-keeps, continue-eq-ok, Exec,
}
use api_payment.Platform.{Row, TypeOrm, IsLawful}
use api_payment.Platform.Dates.{DateParsers, parse_date}
use api_payment.Database.{Db}
use api_payment.Webhook.Event.{WebhookEvent, value}
use api_payment.Webhook.StateMachine.Edges.{follows}
use api_payment.Webhook.Payload.{WebhookPayload}
use api_payment.Webhook.EventLog.{is_processed_for, event_name_of, log_event}
use api_payment.Webhook.EventLog.Entity.{WebhookEventLog}
use api_payment.Webhook.Steps.{check_sequence, processed_entry, log_processed, process_in_sequence}
use api_payment.Webhook.Steps.Check.{
  truthy_text-value, follows_irreflexive, check_sequence-state, log_processed-eq-ok, IsAt,
  IsAt-event_logs, check_sequence-IsAt,
}

module _ (o : TypeOrm) (laws : IsLawful o) where
  -- A line that was added for the same event, or could not be, keeps a payment at its event.
  inserted-IsAt :
      (code : String) (name : WebhookEvent) (entry : WebhookEventLog) (db : Db o)
      (inserted : Result (Row WebhookEventLog) × o.Table WebhookEventLog)
      → o.insert _ entry db.event_logs ≡ inserted
      → entry.event_name ≡ value name
      → IsAt o code name db
      → IsAt o code name (record db { event_logs = inserted.1 })
  inserted-IsAt code name entry db (ok line, t) stored named at log found =
      elim (Bool-cases (is_processed_for code entry)) [
        | inl ours ↦
            ap event_name_of
              (laws.insert_last _ (is_processed_for code) entry _ _ line log stored ours found)
            ∙ ap truthy_text
                (laws.insert_column _ (λ e. e.event_name) entry _ _ line stored ∙ named)
            ∙ truthy_text-value name
        | inr other ↦
            at log (
              sym (laws.insert_other _ (is_processed_for code) entry _ _ line stored other) ∙ found)
      ]
  inserted-IsAt code name entry db (throw x, t) stored named at log found =
      at log (sym (laws.insert_failed _ (is_processed_for code) entry _ _ x stored).1 ∙ found)

module _ (o : TypeOrm) (laws : IsLawful o) (d : DateParsers) {T : Type 0} where
  -- After an event was logged as processed, its payment is at it.
  pub log_processed-IsAt :
      (code entity_type id client_id : String) (name : WebhookEvent) (event : WebhookPayload T)
      (db db' : Db o)
      → log_processed o d code entity_type id name event client_id db ≡ (ok tt, db')
      → IsAt o code name db'
  unfolding log_event
  log_processed-IsAt code entity_type id client_id name event db db' run log found =
      let (date, line, logged) =
        log_processed-eq-ok o d code entity_type id client_id name event db db' run in
      let entry = processed_entry o d code entity_type id name event client_id date in
      let stored = ap (λ s. (s.0, s.1.event_logs)) logged in
      let latest =
        laws.insert_last _ (is_processed_for code) entry _ _ line log stored (simp eq_refl) found in
      ap event_name_of latest
      ∙ ap truthy_text (laws.insert_column _ (λ e. e.event_name) entry _ _ line stored)
      ∙ truthy_text-value name

  -- A line for the same event, of whatever payment, keeps a payment at its event, also if the line
  -- could not be written.
  pub log_processed-keeps_IsAt :
      (code other entity_type id client_id : String) (name : WebhookEvent)
      (event : WebhookPayload T) (db : Db o)
      → IsAt o code name db
      → IsAt o code name (log_processed o d other entity_type id name event client_id db).1
  unfolding log_processed log_event
  log_processed-keeps_IsAt code other entity_type id client_id name event db at =
      elim (Result-cases (parse_date d event.timestamp)) [
        | inl (date, parsed) ↦
            let entry = processed_entry o d other entity_type id name event client_id date in
            rw (parsed, continue-pure)
              (inserted-IsAt o laws code name entry db (o.insert _ entry db.event_logs) refl refl
                at)
        | inr (x, invalid) ↦ rw invalid at
      ]

  -- The body of a handler whose writes leave the log alone takes the payment to its event, ...
  pub process-IsAt :
      (code entity_type id client_id : String) (name : WebhookEvent)
      (write : Exec (Db o) (Unit {0})) (event : WebhookPayload T) (db db' : Db o)
      → process_in_sequence o d code name write entity_type id event client_id db ≡ (ok tt, db')
      → IsAt o code name db'
  unfolding process_in_sequence
  process-IsAt code entity_type id client_id name write event db db' run =
      let (checked, db1, passed, rest) = continue-eq-ok (check_sequence o code name db) _ run in
      let (written, db2, wrote, logged) = continue-eq-ok (write db1) _ rest in
      log_processed-IsAt code entity_type id client_id name event db2 db' logged

  -- ... however it ends, keeps every payment that was at this event there, ...
  pub process-keeps_IsAt :
      (code other entity_type id client_id : String) (name : WebhookEvent)
      (write : Exec (Db o) (Unit {0})) (event : WebhookPayload T) (db : Db o)
      → ((db : Db o) → (write db).1.event_logs ≡ db.event_logs)
      → IsAt o code name db
      → IsAt o code name
          (process_in_sequence o d other name write entity_type id event client_id db).1
  unfolding process_in_sequence
  process-keeps_IsAt code other entity_type id client_id name write event db leaves at =
      let db1 = (check_sequence o other name db).1 in
      let db2 = (write db1).1 in
      continue-keeps (IsAt o code name) (check_sequence o other name db) _
        (rw (check_sequence-state o other name db) at)
        λ checked at1.
          continue-keeps (IsAt o code name) (write db1) _
            (IsAt-event_logs o code name db1 db2 (leaves db1) at1)
            λ written at2.
              log_processed-keeps_IsAt code other entity_type id client_id name event db2 at2

  -- ... and is refused, with nothing written, for a payment that is at it.
  pub process-refused :
      (code entity_type id client_id : String) (name : WebhookEvent)
      (write : Exec (Db o) (Unit {0})) (event : WebhookPayload T) (db : Db o)
      → IsAt o code name db
      → (x : Exception) × (process_in_sequence o d code name write entity_type id event client_id db
          ≡ (throw x, db))
  unfolding process_in_sequence
  process-refused code entity_type id client_id name write event db at =
      let (x, refused) = check_sequence-IsAt o code name name db at (follows_irreflexive name) in
      (x, rw refused)

  -- The body of a handler that is bound to the sequence throws and writes nothing, if the payment is
  -- at an event that the diagram does not let the new one follow.
  pub process-out_of_order :
      (code entity_type id client_id : String) (current name : WebhookEvent)
      (write : Exec (Db o) (Unit {0})) (event : WebhookPayload T) (db : Db o)
      → IsAt o code current db
      → follows current name ≡ false
      → (x : Exception) × (process_in_sequence o d code name write entity_type id event client_id db
          ≡ (throw x, db))
  unfolding process_in_sequence
  process-out_of_order code entity_type id client_id current name write event db at out =
      let (x, refused) = check_sequence-IsAt o code current name db at out in (x, rw refused)
