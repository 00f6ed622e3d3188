-- ===== src/Webhook/Steps/Refine.antt =====
-- The runs of a handler that is bound to the sequence, as steps of the diagram of events
-- (the body that the handlers of src/webhook-processor/services share).
use api_payment.Common.{String, ◌≡◌, ◌∙◌, true, inl, inr, Bool-cases, none}
use api_payment.Common.Exec.{ok, Exec}
use api_payment.Platform.{TypeOrm, IsLawful}
use api_payment.Platform.Dates.{DateParsers}
use api_payment.Database.{Db}
use api_payment.Webhook.Event.{WebhookEvent}
use api_payment.Webhook.EventLog.{is_processed_for, get_last_processed_event}
use api_payment.Webhook.EventLog.Entity.{WebhookEventLog}
use api_payment.Webhook.StateMachine.Edges.{follows, opens, can_process-opens}
use api_payment.Webhook.Payload.{WebhookPayload}
use api_payment.Webhook.Steps.{check_sequence, process_in_sequence}
use api_payment.Webhook.Steps.Check.{IsAt}
use api_payment.Webhook.Steps.Replay.{process-IsAt, process-out_of_order}

-- The log can be read and has no processed event of the payment `code`.
abbrev pub IsNew : (o : TypeOrm) → String → Db o → Type 0
IsNew o code db = o.find_last WebhookEventLog (is_processed_for code) db.event_logs ≡ ok none

module _ (o : TypeOrm) (laws : IsLawful o) (d : DateParsers) {T : Type 0}
    (code entity_type id client_id : String) (name : WebhookEvent) (write : Exec (Db o) (Unit {0}))
    (event : WebhookPayload T) (db db' : Db o) where
  -- A run of such a handler that ended well is a step along an arrow of the diagram: if the payment
  -- was at an event, the new one follows it, and the payment is at the new event afterwards.
  pub process-follows :
      (current : WebhookEvent)
      → IsAt o code current db
      → process_in_sequence o d code name write entity_type id event client_id db ≡ (ok tt, db')
      → (follows current name ≡ true) × IsAt o code name db'
  process-follows current at run = elim (Bool-cases (follows current name)) [
    | inl arrow ↦
        (arrow, process-IsAt o laws d code entity_type id client_id name write event db db' run)
    | inr out ↦
        let (x, refused) =
          process-out_of_order o laws d code entity_type id client_id current name write event db at
            out in
        let bad = rw refused at run in cc
  ]

  -- If the payment had no event yet, the new one opens a flow.
  pub process-opens :
      IsNew o code db
      → process_in_sequence o d code name write entity_type id event client_id db ≡ (ok tt, db')
      → (opens name ≡ true) × IsAt o code name db'
  unfolding process_in_sequence check_sequence get_last_processed_event
  process-opens fresh run = elim (Bool-cases (opens name)) [
    | inl opening ↦
        (opening, process-IsAt o laws d code entity_type id client_id name write event db db' run)
    | inr out ↦
        let refused = can_process-opens name ∙ out in let bad = rw (fresh, refused) at run in cc
  ]
