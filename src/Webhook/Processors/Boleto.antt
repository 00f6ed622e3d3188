-- ===== src/Webhook/Processors/Boleto.antt =====
-- The queue of boleto webhooks (src/webhook-processor/processors/boleto-webhook.processor.ts,
-- src/webhook-processor/interfaces/boleto-webhook-job.interface.ts).
use api_payment.Common.{◌≡◌, false, some, List}
use api_payment.Common.Exec.{Exec}
use api_payment.Platform.{TypeOrm}
use api_payment.Platform.Dates.{DateParsers}
use api_payment.Database.{Db}
use api_payment.Webhook.Payload.{WebhookPayload}
use api_payment.Webhook.Steps.Frame.{if_invalid-state}
use api_payment.Webhook.Event.{
  boleto_was_registered, boleto_cash_in_was_received, boleto_cash_in_was_cleared,
  boleto_was_cancelled,
}
use api_payment.Webhook.Boleto.{
  BoletoWebhookData, handle_registered, handle_cash_in_received, handle_cash_in_cleared,
  handle_cancelled,
}
use api_payment.Webhook.Processors.{JobData, FailedJob, on_failed_events}

-- The event type of a job with its events.
pub data BoletoWebhookJob : Type 0 where
  registered : List (WebhookPayload BoletoWebhookData) → BoletoWebhookJob
  cash_in_received : List (WebhookPayload BoletoWebhookData) → BoletoWebhookJob
  cash_in_cleared : List (WebhookPayload BoletoWebhookData) → BoletoWebhookJob
  cancelled : List (WebhookPayload BoletoWebhookData) → BoletoWebhookJob

module _ (o : TypeOrm) (d : DateParsers) (data_of : JobData) where
  -- `handleJob`: what a handler throws is logged and thrown again.
  unfoldable pub handle_job : BoletoWebhookJob → Exec (Db o) (Unit {0})
  handle_job (registered events) =
      handle_registered o d events data_of.client_id data_of.provider_slug data_of.valid_public_key
  handle_job (cash_in_received events) =
      handle_cash_in_received o d events data_of.client_id data_of.provider_slug
        data_of.valid_public_key
  handle_job (cash_in_cleared events) =
      handle_cash_in_cleared o d events data_of.client_id data_of.provider_slug
        data_of.valid_public_key
  handle_job (cancelled events) =
      handle_cancelled o d events data_of.client_id data_of.provider_slug data_of.valid_public_key

  -- `onFailed`
  unfoldable pub on_failed : BoletoWebhookJob → FailedJob → Exec (Db o) (Unit {0})
  on_failed (registered events) job =
      on_failed_events o d (λ it. some it.authentication_code) "BOLETO" boleto_was_registered
        data_of.client_id job events
  on_failed (cash_in_received events) job =
      on_failed_events o d (λ it. some it.authentication_code) "BOLETO" boleto_cash_in_was_received
        data_of.client_id job events
  on_failed (cash_in_cleared events) job =
      on_failed_events o d (λ it. some it.authentication_code) "BOLETO" boleto_cash_in_was_cleared
        data_of.client_id job events
  on_failed (cancelled events) job =
      on_failed_events o d (λ it. some it.authentication_code) "BOLETO" boleto_was_cancelled
        data_of.client_id job events

  -- A boleto job whose public key was not valid writes nothing, whatever its type, events and
  -- provider.
  pub unverified_boleto_job :
      (job : BoletoWebhookJob) (db : Db o)
      → data_of.valid_public_key ≡ false
      → (handle_job job db).1 ≡ db
  unfolding handle_job handle_registered handle_cash_in_received handle_cash_in_cleared
      handle_cancelled
  unverified_boleto_job (registered events) db h = if_invalid-state _ _ _ db h
  unverified_boleto_job (cash_in_received events) db h = if_invalid-state _ _ _ db h
  unverified_boleto_job (cash_in_cleared events) db h = if_invalid-state _ _ _ db h
  unverified_boleto_job (cancelled events) db h = if_invalid-state _ _ _ db h
