-- ===== src/Webhook/Boleto/Sequence.antt =====
-- The sequence of the events of a boleto.
use api_payment.Common.{String, ◌≡◌, refl, ap, true, false, Option, none, some}
use api_payment.Common.Exec.{Result, ok, throw, Exec, continue, pure, continue-eq-ok}
use api_payment.Platform.{Row, TypeOrm, IsLawful}
use api_payment.Platform.Dates.{Date, DateParsers, parse_date}
use api_payment.Database.{Db}
use api_payment.Boleto.Entities.{Boleto}
use api_payment.Webhook.Event.{WebhookEvent, value, boleto_was_registered}
use api_payment.Webhook.StateMachine.{is_terminal_event}
use api_payment.Webhook.StateMachine.Edges.{follows, closes-follows}
use api_payment.Webhook.Payload.{WebhookPayload}
use api_payment.Webhook.Steps.{if_found, process_in_sequence, processed_entry, log_processed}
use api_payment.Webhook.EventLog.{log_event}
use api_payment.Webhook.EventLog.Entity.{WebhookEventLog}
use api_payment.Webhook.Steps.Check.{IsAt}
use api_payment.Webhook.Steps.Replay.{process-out_of_order, log_processed-IsAt}
use api_payment.Webhook.Boleto.{
  BoletoWebhookData, our_number_of, registered_after, find_by_our_number, find_boleto, register,
  save_boleto, boleto_registered, boleto_received, boleto_cleared, boleto_cancelled,
}

module _ (o : TypeOrm) where
  find_by_our_number-state :
      (our_number : Option String) (found : Option (Row Boleto)) (db : Db o)
      → (find_by_our_number o our_number found db).1 ≡ db
  unfolding find_by_our_number
  find_by_our_number-state our_number (some row) db = refl
  find_by_our_number-state none none db = refl
  find_by_our_number-state (some our_number) none db = refl

  found-state :
      (r : Result (Option (Row Boleto))) (our_number : Option String) (db : Db o)
      → (continue r (find_by_our_number o our_number) db).1 ≡ db
  found-state (ok found) our_number db = find_by_our_number-state our_number found db
  found-state (throw x) our_number db = refl

  -- The look-up of a boleto writes nothing.
  find_boleto-state :
      (code : String) (our_number : Option String) (db : Db o)
      → (find_boleto o code our_number db).1 ≡ db
  unfolding find_boleto
  find_boleto-state code our_number db = found-state _ _ db

module _ (o : TypeOrm) (d : DateParsers) (event : WebhookPayload BoletoWebhookData)
    (client_id : String) (current : WebhookEvent) (db : Db o) where
  abbrev code : String
  code = event.event_data.authentication_code

  refused_if_found :
      (name : WebhookEvent) (write : Row Boleto → Exec (Db o) (Unit {0}))
      (r : Result (Option (Row Boleto)) × Db o)
      → r.1 ≡ db
      → IsLawful o
      → IsAt o code current db
      → follows current name ≡ false
      → (continue r.0
          (if_found
            (λ row. process_in_sequence o d code name (write row) "BOLETO" row.id event client_id)
            (pure tt))
          r.1).1
        ≡ db
  refused_if_found name write (throw x, u) same laws at out = same
  refused_if_found name write (ok none, u) same laws at out = same
  refused_if_found name write (ok (some row), u) same laws at out =
      let (x, refused) =
        process-out_of_order o laws d code "BOLETO" row.id client_id current name (write row) event
          db at out in
      rw same (ap (λ s. s.1) refused)

  -- After a terminal event of a boleto's payment nothing is written for the events of its payment
  -- and of its cancellation.
  pub boleto-closed :
      IsLawful o
      → IsAt o event.event_data.authentication_code current db
      → is_terminal_event (value current) ≡ true
      → ((boleto_received o d client_id event db).1 ≡ db)
        × ((boleto_cleared o d client_id event db).1 ≡ db)
        × ((boleto_cancelled o d client_id event db).1 ≡ db)
  unfolding boleto_received boleto_cleared boleto_cancelled
  boleto-closed laws at closed =
      let same = find_boleto-state o code (our_number_of event.event_data) db in
      (
        refused_if_found _ _ _ same laws at (closes-follows current _ closed),
        refused_if_found _ _ _ same laws at (closes-follows current _ closed),
        refused_if_found _ _ _ same laws at (closes-follows current _ closed),
      )

module _ (o : TypeOrm) (laws : IsLawful o) (d : DateParsers)
    (event : WebhookPayload BoletoWebhookData) (client_id : String) where
  registered-IsAt :
      (row : Row Boleto) (db db' : Db o)
      → find_boleto o event.event_data.authentication_code (our_number_of event.event_data) db
        ≡ (ok (some row), db)
      → boleto_registered o d client_id event db ≡ (ok tt, db')
      → IsAt o event.event_data.authentication_code boleto_was_registered db'
  unfolding boleto_registered register
  registered-IsAt row db db' found run =
      let (saved, db1, stored, logged) =
        continue-eq-ok (save_boleto o d registered_after event.event_data row db) _
          (rw found at run) in
      log_processed-IsAt o laws d event.event_data.authentication_code "BOLETO" row.id client_id
        boleto_was_registered event db1 db' logged

  registered-runs :
      (row saved : Row Boleto) (boletos : o.Table Boleto) (date : Date) (line : Row WebhookEventLog)
      (logs : o.Table WebhookEventLog) (db : Db o)
      → find_boleto o event.event_data.authentication_code (our_number_of event.event_data) db
        ≡ (ok (some row), db)
      → o.update Boleto
          (record row { fields = registered_after event.event_data row.fields })
          db.boletos
        ≡ (ok saved, boletos)
      → parse_date d event.timestamp ≡ ok date
      → o.insert WebhookEventLog
          (processed_entry o d event.event_data.authentication_code "BOLETO" row.id
            boleto_was_registered event client_id date)
          db.event_logs
        ≡ (ok line, logs)
      → boleto_registered o d client_id event db
        ≡ (ok tt, record db { boletos = boletos; event_logs = logs })
  unfolding boleto_registered register log_processed log_event
  registered-runs row saved boletos date line logs db found updated parsed logged =
      rw (found, updated, parsed, logged) refl

  -- handleRegistered asks for no sequence: whatever the log says of the payment, a terminal event
  -- included, the round ends well for a boleto that is found if the boleto and the line of the log are
  -- saved and the timestamp is a date, and the payment is at the registration afterwards.
  pub boleto_registered-reopens :
      (row saved : Row Boleto) (boletos : o.Table Boleto) (date : Date) (line : Row WebhookEventLog)
      (logs : o.Table WebhookEventLog) (db : Db o)
      → find_boleto o event.event_data.authentication_code (our_number_of event.event_data) db
        ≡ (ok (some row), db)
      → o.update Boleto
          (record row { fields = registered_after event.event_data row.fields })
          db.boletos
        ≡ (ok saved, boletos)
      → parse_date d event.timestamp ≡ ok date
      → o.insert WebhookEventLog
          (processed_entry o d event.event_data.authentication_code "BOLETO" row.id
            boleto_was_registered event client_id date)
          db.event_logs
        ≡ (ok line, logs)
      → let run = boleto_registered o d client_id event db in
        (run.0 ≡ ok tt) × IsAt o event.event_data.authentication_code boleto_was_registered run.1
  boleto_registered-reopens row saved boletos date line logs db found updated parsed logged =
      let ran = registered-runs row saved boletos date line logs db found updated parsed logged in
      (ap (λ s. s.0) ran, rw ran (registered-IsAt row db _ found ran))
