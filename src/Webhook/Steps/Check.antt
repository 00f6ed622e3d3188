-- ===== src/Webhook/Steps/Check.antt =====
-- The check of the sequence, and where the log says that a payment is.
use api_payment.Common.{
  String, ◌≡◌, refl, ◌∙◌, false, Option, some, truthy_text, inl, inr, Bool-cases,
}
use api_payment.Common.Exec.{Result, ok, throw, Exception, continue, pure, Result-cases, done-eq-ok}
use api_payment.Platform.{Row, TypeOrm}
use api_payment.Platform.Dates.{Date, DateParsers, parse_date}
use api_payment.Database.{Db}
use api_payment.Webhook.Event.{WebhookEvent, value, pix_cash_in_was_received}
use api_payment.Webhook.StateMachine.{can_process_webhook}
use api_payment.Webhook.StateMachine.Edges.{follows, can_process-follows}
use api_payment.Webhook.Payload.{WebhookPayload}
use api_payment.Webhook.EventLog.{
  is_processed_for, event_name_of, get_last_processed_event, log_event,
}
use api_payment.Webhook.EventLog.Entity.{WebhookEventLog}
use api_payment.Webhook.EventLog.Latest.{name_found}
use api_payment.Webhook.Steps.{refuse_unless, check_sequence, processed_entry, log_processed}

pub truthy_text-value : (e : WebhookEvent) → truthy_text (value e) ≡ some (value e)
truthy_text-value pix_cash_in_was_received = refl
truthy_text-value _ = refl

pub follows_irreflexive : (e : WebhookEvent) → follows e e ≡ false
follows_irreflexive pix_cash_in_was_received = refl
follows_irreflexive _ = refl

module _ (o : TypeOrm) where
  -- The check reads the log and writes nothing.
  refused :
      (code : String) (e : WebhookEvent) (found : Result (Option String)) (db : Db o)
      → ((last : Option String)
          → found ≡ ok last
          → (can_process_webhook last (value e)).can_process ≡ false)
      → (x : Exception) × (continue found
            (λ last. refuse_unless o code e (can_process_webhook last (value e)))
            db
          ≡ (throw x, db))
  refused code e (ok last) db h = rw (h last refl) (_, refl)
  refused code e (throw x) db h = (x, refl)

  named_in :
      (found : Result (Option (Row WebhookEventLog))) (db : Db o)
      → continue found (λ log. pure (event_name_of log)) db
        ≡ ((continue found (λ log. pure (event_name_of log)) db).0, db)
  named_in (ok log) db = refl
  named_in (throw x) db = refl

  get_last-state :
      (code : String) (db : Db o)
      → get_last_processed_event o code db ≡ ((get_last_processed_event o code db).0, db)
  unfolding get_last_processed_event
  get_last-state code db = named_in _ db

  unchanged :
      (code : String) (e : WebhookEvent) (found : Result (Option String)) (db : Db o)
      → (continue found (λ last. refuse_unless o code e (can_process_webhook last (value e))) db).1
        ≡ db
  unchanged code e (ok last) db =
      elim (Bool-cases (can_process_webhook last (value e)).can_process) [
        | inl yes_it_can ↦ rw yes_it_can
        | inr it_cannot ↦ rw it_cannot
      ]
  unchanged code e (throw x) db = refl

  -- The check writes nothing.
  pub check_sequence-state :
      (code : String) (e : WebhookEvent) (db : Db o) → (check_sequence o code e db).1 ≡ db
  unfolding check_sequence
  check_sequence-state code e db =
      rw (get_last-state code db) (unchanged code e (get_last_processed_event o code db).0 db)

  -- The check throws and leaves the database as it was, if the last processed event does not let
  -- the new one through.
  pub check_sequence-refused :
      (code : String) (e : WebhookEvent) (db : Db o)
      → ((last : Option String)
          → (get_last_processed_event o code db).0 ≡ ok last
          → (can_process_webhook last (value e)).can_process ≡ false)
      → (x : Exception) × (check_sequence o code e db ≡ (throw x, db))
  unfolding check_sequence
  check_sequence-refused code e db h =
      rw (get_last-state code db) (refused code e (get_last_processed_event o code db).0 db h)

module _ (o : TypeOrm) (d : DateParsers) {T : Type 0} where
  -- A run of the last call of a handler that ended well has added its line to the log.
  pub log_processed-eq-ok :
      (code entity_type id client_id : String) (name : WebhookEvent) (event : WebhookPayload T)
      (db db' : Db o)
      → log_processed o d code entity_type id name event client_id db ≡ (ok tt, db')
      → (date : Date) × (log : Row WebhookEventLog) × (log_event o
            (processed_entry o d code entity_type id name event client_id date)
            db
          ≡ (ok log, db'))
  unfolding log_processed
  log_processed-eq-ok code entity_type id client_id name event db db' run =
      elim (Result-cases (parse_date d event.timestamp)) [
        | inl (date, parsed) ↦
            let entry = processed_entry o d code entity_type id name event client_id date in
            let (log, logged) = done-eq-ok (log_event o entry db) (rw parsed at run) in
            (date, log, logged)
        | inr (x, invalid) ↦ let bad = rw invalid at run in cc
      ]

-- As far as the log can be read, the last processed event of the payment `code` is `name`.
abbrev pub IsAt : (o : TypeOrm) → String → WebhookEvent → Db o → Type 0
IsAt o code name db =
    (log : Option (Row WebhookEventLog))
    → o.find_last WebhookEventLog (is_processed_for code) db.event_logs ≡ ok log
    → event_name_of log ≡ some (value name)

pub IsAt-event_logs :
    (o : TypeOrm) (code : String) (name : WebhookEvent) (db db' : Db o)
    → db'.event_logs ≡ db.event_logs
    → IsAt o code name db
    → IsAt o code name db'
IsAt-event_logs o code name db db' same at log found = at log (rw same at found)

module _ (o : TypeOrm) (code : String) (name : WebhookEvent) where
  IsAt-get_last :
      (db : Db o) (last : Option String)
      → IsAt o code name db
      → (get_last_processed_event o code db).0 ≡ ok last
      → last ≡ some (value name)
  unfolding get_last_processed_event
  IsAt-get_last db last at found =
      let (log, seen, named) = name_found _ db last found in named ∙ at log seen

  -- At an event of a payment the check refuses what the diagram does not let follow, the same event
  -- among it, and writes nothing.
  pub check_sequence-IsAt :
      (next : WebhookEvent) (db : Db o)
      → IsAt o code name db
      → follows name next ≡ false
      → (x : Exception) × (check_sequence o code next db ≡ (throw x, db))
  check_sequence-IsAt next db at out =
      check_sequence-refused o code next db
        λ last found. rw (IsAt-get_last db last at found) (can_process-follows name next ∙ out)
