-- ===== src/Webhook/EventLog/Entity.antt =====
-- One line of the event log (src/webhook-processor/entities/webhook-event-log.entity.ts). The engine
-- keeps its id and the date of its creation.
use api_payment.Common.{String, Bool, Option}
use api_payment.Platform.Dates.{Date}
use api_payment.Webhook.Payload.{Json}

pub record WebhookEventLog : Type 0 where
  pub authentication_code : String
  pub entity_type : String
  pub entity_id : Option String
  pub event_name : String
  pub was_processed : Bool
  pub skip_reason : Option String
  pub payload : Option Json
  pub provider_timestamp : Option Date
  pub client_id : String
