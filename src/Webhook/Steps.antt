-- ===== src/Webhook/Steps.antt =====
-- The steps that the webhook services share (src/webhook-processor/services): the services write them
-- out in each handler.
mod Values
pub mod Check
pub mod Replay
pub mod Refine
pub mod History
pub mod Frame
pub mod Batch
pub mod Guarded
pub mod Again
pub mod Once
use api_payment.Common.{
  ℕ, String, Bool, true, false, Option, none, some, truthy, or_text, ◌&?◌, str_eq as ◌==◌,
  if◌then◌else◌,
}
use api_payment.Common.Exec.{
  Exec, Result, ok, throw, Exception, not_found, out_of_sequence, invalid_provider, pure, raise,
  lift, ◌>>=◌, ◌>>◌,
}
use api_payment.Platform.{Row, TypeOrm}
use api_payment.Platform.Dates.{Date, DateParsers, parse_date}
use api_payment.Platform.Financial.{FinancialProvider, hiperbanco}
use api_payment.Database.{Db, Repository, find_one, update}
use api_payment.Account.{find_by_number}
use api_payment.Account.Entity.{Account}
use api_payment.Transaction.Service.{
  CreateTransactionFromWebhook, create_from_webhook, update_from_webhook,
}
use api_payment.Transaction.Status.{TransactionType}
use api_payment.Webhook.Event.{WebhookEvent, value}
use api_payment.Webhook.StateMachine.{WebhookValidationResult, can_process_webhook}
use api_payment.Webhook.Status.{map_webhook_event_to_transaction_status}
use api_payment.Webhook.Payload.{AmountData, WebhookPayload, ParticipantData, to_payload}
use api_payment.Webhook.EventLog.{get_last_processed_event, log_event}
use api_payment.Webhook.EventLog.Entity.{WebhookEventLog}
unfoldable pub use Values.*

module _ (o : TypeOrm) where
  -- The check of the sequence, and the exception if it fails.
  abbrev refuse_unless : String → WebhookEvent → WebhookValidationResult → Exec (Db o) (Unit {0})
  refuse_unless code event validation =
      if validation.can_process
      then pure tt
      else raise (out_of_sequence code (value event) (or_text validation.reason "Unknown reason"))

  unfoldable pub check_sequence : String → WebhookEvent → Exec (Db o) (Unit {0})
  check_sequence code event = do
    last_event ← get_last_processed_event o code
    refuse_unless code event (can_process_webhook last_event (value event))

  abbrev retry_unless_foreign :
      String → WebhookEvent → Option (Row Account) → Exec (Db o) (Unit {0})
  retry_unless_foreign code event none = pure tt
  retry_unless_foreign code event (some account) = raise (not_found code (value event))

  -- The entity of an event is missing: the event is ignored if it names an account that is not
  -- ours, and is to be tried again otherwise.
  unfoldable pub entity_missing : String → WebhookEvent → Option String → Exec (Db o) (Unit {0})
  entity_missing code event none = raise (not_found code (value event))
  entity_missing code event (some number) = do
    account ← find_by_number o number
    retry_unless_foreign code event account

module _ (o : TypeOrm) (d : DateParsers) {T : Type 0} where
  -- The call of `updateFromWebhook` for an event.
  unfoldable pub update_transaction :
      String → WebhookEvent → Option String → WebhookPayload T → Exec (Db o) (Unit {0})
  update_transaction code name description event = do
    provider_timestamp ← lift (parse_date d event.timestamp)
    updated ← update_from_webhook o (record {
      authentication_code = code;
      status = map_webhook_event_to_transaction_status (value name);
      correlation_id = event.correlation_id;
      idempotency_key = event.idempotency_key;
      entity_id = some event.entity_id;
      description = description;
      provider_timestamp = some provider_timestamp;
    })
    pure tt

  abbrev pub processed_entry :
      String → String → String → WebhookEvent → WebhookPayload T → String → Date → WebhookEventLog
  processed_entry code entity_type entity_id name event client_id provider_timestamp = record {
    authentication_code = code;
    entity_type = entity_type;
    entity_id = some entity_id;
    event_name = value name;
    was_processed = true;
    skip_reason = none;
    payload = some (to_payload event.raw);
    provider_timestamp = some provider_timestamp;
    client_id = client_id;
  }

  -- The call of `logEvent` at the end of a handler.
  unfoldable pub log_processed :
      String → String → String → WebhookEvent → WebhookPayload T → String → Exec (Db o) (Unit {0})
  log_processed code entity_type entity_id name event client_id = do
    date ← lift (parse_date d event.timestamp)
    log ← log_event o (processed_entry code entity_type entity_id name event client_id date)
    pure tt

module _ (o : TypeOrm) (d : DateParsers) {T : Type 0} where
  -- The body of a handler that is bound to the sequence: the check, what the handler writes to the
  -- entity and its transaction, and the line of the log.
  unfoldable pub process_in_sequence :
      String
      → WebhookEvent
      → Exec (Db o) (Unit {0})
      → String
      → String
      → WebhookPayload T
      → String
      → Exec (Db o) (Unit {0})
  process_in_sequence code name write entity_type entity_id event client_id = do
    check_sequence o code name
    write
    log_processed o d code entity_type entity_id name event client_id

module _ (o : TypeOrm) (d : DateParsers) {T : Type 0} where
  -- The call of `createFromWebhook` for an event.
  unfoldable pub create_transaction :
      (Date → CreateTransactionFromWebhook) → WebhookPayload T → Exec (Db o) (Unit {0})
  create_transaction dated event = do
    date ← lift (parse_date d event.timestamp)
    created ← create_from_webhook o (dated date)
    pure tt

module _ (o : TypeOrm) (d : DateParsers) {T E : Type 0} where
  -- The entity is saved and its transaction updated.
  unfoldable pub save_and_update :
      Repository o E
      → Row E
      → String
      → WebhookEvent
      → Option String
      → WebhookPayload T
      → Exec (Db o) (Unit {0})
  save_and_update repository row code name description event = do
    saved ← update o repository row
    update_transaction o d code name description event

-- `if (!row) { missing } …`
abbrev pub if_found :
    {S E : Type 0}
    → (Row E → Exec S (Unit {0}))
    → Exec S (Unit {0})
    → Option (Row E)
    → Exec S (Unit {0})
if_found proceed missing none = missing
if_found proceed missing (some row) = proceed row

module _ (o : TypeOrm) (d : DateParsers) {T E : Type 0} where
  -- A handler that is bound to the sequence if its entity is found.
  abbrev pub process_if_found :
      Repository o E
      → (E → Bool)
      → String
      → WebhookEvent
      → (Row E → Exec (Db o) (Unit {0}))
      → String
      → WebhookPayload T
      → String
      → Exec (Db o) (Unit {0})
      → Exec (Db o) (Unit {0})
  process_if_found repository where_code code name write entity_type event client_id missing = do
    row ← find_one o repository where_code
    if_found
        (λ row. process_in_sequence o d code name (write row) entity_type row.id event client_id)
        missing row

  -- `throw new TransactionNotFoundRetryableException(…)` if it is not
  abbrev pub process_found :
      Repository o E
      → (E → Bool)
      → String
      → WebhookEvent
      → (Row E → Exec (Db o) (Unit {0}))
      → String
      → WebhookPayload T
      → String
      → Exec (Db o) (Unit {0})
  process_found repository where_code code name write entity_type event client_id =
      process_if_found repository where_code code name write entity_type event client_id
        (raise (not_found code (value name)))
