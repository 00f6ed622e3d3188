-- ===== src/Webhook/Steps/History.antt =====
-- A stretch of the history of one payment: the runs of handlers bound to the sequence that ended well
-- for it (the handlers of src/webhook-processor/services).
use api_payment.Common.{String, ◌≡◌, ◌∙◌, ◌≤◌, arith, Option, none, some, List, [], ◌∷◌}
use api_payment.Common.Exec.{ok, Exec}
use api_payment.Common.Lists.{length}
use api_payment.Platform.{TypeOrm, IsLawful}
use api_payment.Platform.Dates.{DateParsers}
use api_payment.Database.{Db}
use api_payment.Webhook.Event.{WebhookEvent}
use api_payment.Webhook.EventLog.{is_processed_for}
use api_payment.Webhook.EventLog.Entity.{WebhookEventLog}
use api_payment.Webhook.StateMachine.Edges.{can_process-follows, can_process-opens}
use api_payment.Webhook.StateMachine.Chains.{IsAccepted, accepted-length, length_after}
use api_payment.Webhook.Payload.{WebhookPayload}
use api_payment.Webhook.Steps.{process_in_sequence}
use api_payment.Webhook.Steps.Check.{IsAt}
use api_payment.Webhook.Steps.Refine.{IsNew, process-follows, process-opens}

-- From one database to another through runs of the bodies of bound handlers that processed the listed
-- events of the payment `code`. Handlers that ask for no sequence are not among them.
pub data Runs (o : TypeOrm) (d : DateParsers) (code : String)
    : Db o → List WebhookEvent → Db o → Type 1 where
  finish : {db : Db o} → Runs o d code db [] db
  -- A handler that is bound to the sequence ends well for the payment.
  process :
      {db db1 db2 : Db o} {es : List WebhookEvent} {T : Type 0} (name : WebhookEvent)
      (write : Exec (Db o) (Unit {0})) (entity_type id client_id : String)
      (event : WebhookPayload T)
      → process_in_sequence o d code name write entity_type id event client_id db ≡ (ok tt, db1)
      → Runs o d code db1 es db2
      → Runs o d code db (name ∷ es) db2
  -- Something else happens that leaves the latest processed line of the payment as it is.
  elsewhere :
      {db db1 db2 : Db o} {es : List WebhookEvent}
      → o.find_last WebhookEventLog (is_processed_for code) db1.event_logs
        ≡ o.find_last WebhookEventLog (is_processed_for code) db.event_logs
      → Runs o d code db1 es db2
      → Runs o d code db es db2

-- The event that the payment `code` is at, none if no event of it was processed.
abbrev pub StandsAt : (o : TypeOrm) → String → Option WebhookEvent → Db o → Type 0
StandsAt o code none db = IsNew o code db
StandsAt o code (some e) db = IsAt o code e db

module _ (o : TypeOrm) (laws : IsLawful o) (d : DateParsers) (code : String) where
  later_run :
      (current : WebhookEvent) (db db' : Db o) (es : List WebhookEvent)
      → IsAt o code current db
      → Runs o d code db es db'
      → IsAccepted (some current) es
  later_run current db db' es at finish = tt
  later_run current db db' es at (process name write entity_type id client_id event run rest) =
      let (arrow, next) =
        process-follows o laws d code entity_type id client_id name write event db _ current at
          run in
      (can_process-follows current name ∙ arrow, later_run name _ db' _ next rest)
  later_run current db db' es at (elsewhere same rest) =
      later_run current _ db' es (λ log found. at log (rw same at found)) rest

  Runs-IsAccepted :
      (current : Option WebhookEvent) (db db' : Db o) (es : List WebhookEvent)
      → StandsAt o code current db
      → Runs o d code db es db'
      → IsAccepted current es
  Runs-IsAccepted (some e) db db' es at runs = later_run e db db' es at runs
  Runs-IsAccepted none db db' es fresh finish = tt
  Runs-IsAccepted none db db' es fresh
        (process name write entity_type id client_id event run rest) =
      let (opening, next) =
        process-opens o laws d code entity_type id client_id name write event db _ fresh run in
      (can_process-opens name ∙ opening, later_run name _ db' _ next rest)
  Runs-IsAccepted none db db' es fresh (elsewhere same rest) =
      Runs-IsAccepted none _ db' es (same ∙ fresh) rest

  accepted_from-length :
      (current : Option WebhookEvent) (es : List WebhookEvent)
      → IsAccepted current es
      → length es ≤ 4
  accepted_from-length none es h = accepted-length es h
  accepted_from-length (some e) es h = omega (arith, length_after e es h)

  -- From a database where the payment has no processed event, or is at one, let bodies of handlers that
  -- are bound to the sequence end well for it one after the other, while whatever else happens leaves
  -- the latest processed line of the payment in the log as it is. Then the check accepts their events
  -- one after the other, the first after the event that the payment was at, and there are at most four.
  pub history-IsAccepted :
      (current : Option WebhookEvent) (db db' : Db o) (es : List WebhookEvent)
      → StandsAt o code current db
      → Runs o d code db es db'
      → IsAccepted current es × (length es ≤ 4)
  history-IsAccepted current db db' es at runs =
      let accepted = Runs-IsAccepted current db db' es at runs in
      (accepted, accepted_from-length current es accepted)
