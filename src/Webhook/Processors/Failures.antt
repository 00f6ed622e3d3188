-- ===== src/Webhook/Processors/Failures.antt =====
-- What the log answers after a job has failed for good (`onFailed`).
use api_payment.Common.{
  String, ◌≡◌, refl, ◌∙◌, Bool, false, ◌&&◌, Option, none, some, List, [], ◌∷◌, arith, Bool-cases,
  inl, inr, leb, ◌≢◌, not, str_eq,
}
use api_payment.Common.Exec.{Result, ok, throw, Result-cases, for_each}
use api_payment.Platform.{Row, TypeOrm, IsLawful}
use api_payment.Platform.Dates.{Date, DateParsers, parse_date}
use api_payment.Database.{Db}
use api_payment.Webhook.Event.{WebhookEvent, value}
use api_payment.Webhook.EventLog.{get_last_processed_event, log_event}
use api_payment.Webhook.EventLog.Entity.{WebhookEventLog}
use api_payment.Webhook.EventLog.Latest.{last-log_event_other, last-log_event_failed}
use api_payment.Webhook.Payload.{WebhookPayload}
use api_payment.Webhook.Processors.{
  FailedJob, max_attempts, log_failure, failed_event, on_failed_events,
}

and_false : (a b : Bool) → b ≡ false → (a && b) ≡ false
and_false a b h = ground arith

-- The last processed event of the payment `code` as the log has it.
abbrev pub last_of : (o : TypeOrm) → String → Db o → Result (Option String)
last_of o code db = (get_last_processed_event o code db).0

module _ (o : TypeOrm) (laws : IsLawful o) (code : String) where
  logged-last :
      (entry : WebhookEventLog) (db : Db o) (logged : Result (Row WebhookEventLog) × Db o)
      → log_event o entry db ≡ logged
      → entry.was_processed ≡ false
      → last_of o code logged.1 ≡ last_of o code db
  unfolding log_event
  logged-last entry db (ok row, db') logged unprocessed =
      last-log_event_other o laws entry code db db' row logged (and_false _ _ unprocessed)
  logged-last entry db (throw x, db') logged unprocessed =
      last-log_event_failed o laws entry code db db' x logged

module _ (o : TypeOrm) (d : DateParsers) {T : Type 0} (code_of : T → Option String)
    (entity_type : String) (name : WebhookEvent) (client_id : String) (job : FailedJob) where
  log_failure-ok :
      (event : WebhookPayload T) (code : Option String) (db : Db o)
      → (log_failure o d code_of entity_type name client_id job event code db).0 ≡ ok tt
  unfolding log_failure
  log_failure-ok event none db = refl
  log_failure-ok event (some code) db = refl

  failed_event-ok :
      (event : WebhookPayload T) (db : Db o)
      → (failed_event o d code_of entity_type name client_id job event db).0 ≡ ok tt
  unfolding failed_event
  failed_event-ok event db = log_failure-ok event (code_of event.event_data) db

  module _ (laws : IsLawful o) where
    log_failure-last :
        (code : String) (event : WebhookPayload T) (own : Option String) (db : Db o)
        → last_of o code (log_failure o d code_of entity_type name client_id job event own db).1
          ≡ last_of o code db
    unfolding log_failure
    log_failure-last code event none db = refl
    log_failure-last code event (some own) db = elim (Result-cases (parse_date d event.timestamp)) [
      | inl (date, parsed) ↦ rw parsed (logged-last o laws code _ db _ refl refl)
      | inr (x, invalid) ↦ rw invalid refl
    ]

    failed_event-last :
        (code : String) (event : WebhookPayload T) (db : Db o)
        → last_of o code (failed_event o d code_of entity_type name client_id job event db).1
          ≡ last_of o code db
    unfolding failed_event
    failed_event-last code event db = log_failure-last code event (code_of event.event_data) db

    failed_events-last :
        (code : String) (events : List (WebhookPayload T)) (db : Db o)
        → let after =
            for_each (failed_event o d code_of entity_type name client_id job) events db in
          (after.0 ≡ ok tt) × (last_of o code after.1 ≡ last_of o code db)
    unfolding for_each
    failed_events-last code [] db = (refl, refl)
    failed_events-last code (e ∷ es) db =
        let db1 = (failed_event o d code_of entity_type name client_id job e db).1 in
        let (done, same) = failed_events-last code es db1 in
        rw (failed_event-ok e db) (done, same ∙ failed_event-last code e db)

    -- `onFailed` throws nothing and changes no payment's last processed event; before the last attempt
    -- it writes nothing.
    pub on_failed_events-last :
        (code : String) (events : List (WebhookPayload T)) (db : Db o)
        → let after = on_failed_events o d code_of entity_type name client_id job events db in
          (after.0 ≡ ok tt)
          × (last_of o code after.1 ≡ last_of o code db)
          × (leb (max_attempts job.attempts) job.attempts_made ≡ false → after.1 ≡ db)
    unfolding on_failed_events
    on_failed_events-last code events db =
        elim (Bool-cases (leb (max_attempts job.attempts) job.attempts_made)) [
          | inl last ↦
              let (done, same) = failed_events-last code events db in rw last (done, same, λ h. cc)
          | inr again ↦ rw again (refl, refl, λ h. refl)
        ]

-- The line of a failure of the event `name` for the payment `code`
abbrev pub is_failure_of : String → WebhookEvent → WebhookEventLog → Bool
is_failure_of code name entry =
    str_eq entry.authentication_code code
    && (str_eq entry.event_name (value name) && not entry.was_processed)

-- If the log can be read, it has a failure of the event `name` for the payment `code`.
abbrev pub HasFailure : (o : TypeOrm) → String → WebhookEvent → Db o → Type 0
HasFailure o code name db = o.find_last _ (is_failure_of code name) db.event_logs ≢ ok none

-- The log takes every line.
abbrev pub TakesLines : TypeOrm → Type 0
TakesLines o =
    (entry : WebhookEventLog) (t : o.Table WebhookEventLog)
    → (row : Row WebhookEventLog) × (t' : o.Table WebhookEventLog) × (o.insert _ entry t
        ≡ (ok row, t'))

-- For each of the events that has a code and a date, the log has a failure.
abbrev pub AreLogged :
    (o : TypeOrm)
    → DateParsers
    → {T : Type 0} → (T → Option String)
    → WebhookEvent
    → List (WebhookPayload T)
    → Db o
    → Type 0
AreLogged o d code_of name [] db = Unit
AreLogged o d code_of name (e ∷ es) db =
    ((code : String) (date : Date)
      → code_of e.event_data ≡ some code
      → parse_date d e.timestamp ≡ ok date
      → HasFailure o code name db)
    × AreLogged o d code_of name es db
