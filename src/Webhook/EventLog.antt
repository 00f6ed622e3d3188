-- ===== src/Webhook/EventLog.antt =====
-- The log of webhook events (src/webhook-processor/services/webhook-event-log.service.ts).
pub mod Entity
pub mod Latest
use api_payment.Common.{String, Bool, ◌&&◌, Option, none, some, truthy_text, str_eq as ◌==◌}
use api_payment.Common.Exec.{Exec, pure, ◌>>=◌}
use api_payment.Platform.{Row, TypeOrm}
use api_payment.Database.{Db, insert, find_last, event_log_repository}
use Entity.{WebhookEventLog}

-- `where: { authenticationCode, wasProcessed: true }`
abbrev pub is_processed_for : String → WebhookEventLog → Bool
is_processed_for code log = log.authentication_code == code && log.was_processed

-- `where: { authenticationCode, clientId, wasProcessed: true }`
abbrev pub is_processed_for_client : String → String → WebhookEventLog → Bool
is_processed_for_client code client_id log =
    log.authentication_code == code && log.client_id == client_id && log.was_processed

-- `lastLog?.eventName || null`
abbrev pub event_name_of : Option (Row WebhookEventLog) → Option String
event_name_of none = none
event_name_of (some row) = truthy_text row.fields.event_name

module _ (o : TypeOrm) where
  -- `getLastProcessedEvent`
  unfoldable pub get_last_processed_event : String → Exec (Db o) (Option String)
  get_last_processed_event code = do
    last_log ← find_last o (event_log_repository o) (is_processed_for code)
    pure (event_name_of last_log)

  -- `getLastProcessedEventByClient`
  unfoldable pub get_last_processed_event_by_client : String → String → Exec (Db o) (Option String)
  get_last_processed_event_by_client code client_id = do
    last_log ← find_last o (event_log_repository o) (is_processed_for_client code client_id)
    pure (event_name_of last_log)

  -- `logEvent`
  unfoldable pub log_event : WebhookEventLog → Exec (Db o) (Row WebhookEventLog)
  log_event entry = insert o (event_log_repository o) entry
