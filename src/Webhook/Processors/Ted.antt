-- ===== src/Webhook/Processors/Ted.antt =====
-- The queue of TED webhooks (src/webhook-processor/processors/ted-webhook.processor.ts,
-- src/webhook-processor/interfaces/ted-webhook-job.type.ts).
use api_payment.Common.{◌≡◌, refl, false, List, truthy_text}
use api_payment.Common.Exec.{Exec, ok}
use api_payment.Platform.{TypeOrm}
use api_payment.Platform.Dates.{DateParsers}
use api_payment.Database.{Db}
use api_payment.Webhook.Payload.{WebhookPayload}
use api_payment.Webhook.Event.{
  ted_cash_out_was_approved, ted_cash_out_was_done, ted_cash_out_was_canceled,
  ted_cash_out_was_reproved, ted_cash_out_was_undone, ted_cash_in_was_received,
  ted_cash_in_was_cleared, ted_refund_was_received, ted_refund_was_cleared,
}
use api_payment.Webhook.Ted.Data.{TedCashOutData, TedCashInData, TedRefundData}
use api_payment.Webhook.Ted.CashOut.{
  process_cash_out_event, handle_cash_out_approved, handle_cash_out_done, handle_cash_out_canceled,
  handle_cash_out_reproved, handle_cash_out_undone,
}
use api_payment.Webhook.Ted.CashIn.{handle_cash_in_received, handle_cash_in_cleared}
use api_payment.Webhook.Ted.Refund.{handle_refund_received, handle_refund_cleared}
use api_payment.Webhook.Processors.{JobData, FailedJob, on_failed_events}

-- The event type of a job with its events.
pub data TedWebhookJob : Type 0 where
  cash_out_approved : List (WebhookPayload TedCashOutData) → TedWebhookJob
  cash_out_done : List (WebhookPayload TedCashOutData) → TedWebhookJob
  cash_out_canceled : List (WebhookPayload TedCashOutData) → TedWebhookJob
  cash_out_reproved : List (WebhookPayload TedCashOutData) → TedWebhookJob
  cash_out_undone : List (WebhookPayload TedCashOutData) → TedWebhookJob
  cash_in_received : List (WebhookPayload TedCashInData) → TedWebhookJob
  cash_in_cleared : List (WebhookPayload TedCashInData) → TedWebhookJob
  refund_received : List (WebhookPayload TedRefundData) → TedWebhookJob
  refund_cleared : List (WebhookPayload TedRefundData) → TedWebhookJob

module _ (o : TypeOrm) (d : DateParsers) (data_of : JobData) where
  -- `handleJob`: what a handler throws is logged and thrown again.
  unfoldable pub handle_job : TedWebhookJob → Exec (Db o) (Unit {0})
  handle_job (cash_out_approved events) =
      handle_cash_out_approved o d events data_of.client_id data_of.provider_slug
        data_of.valid_public_key
  handle_job (cash_out_done events) =
      handle_cash_out_done o d events data_of.client_id data_of.provider_slug
        data_of.valid_public_key
  handle_job (cash_out_canceled events) =
      handle_cash_out_canceled o d events data_of.client_id data_of.provider_slug
        data_of.valid_public_key
  handle_job (cash_out_reproved events) =
      handle_cash_out_reproved o d events data_of.client_id data_of.provider_slug
        data_of.valid_public_key
  handle_job (cash_out_undone events) =
      handle_cash_out_undone o d events data_of.client_id data_of.provider_slug
        data_of.valid_public_key
  handle_job (cash_in_received events) =
      handle_cash_in_received o d events data_of.client_id data_of.provider_slug
        data_of.valid_public_key
  handle_job (cash_in_cleared events) =
      handle_cash_in_cleared o d events data_of.client_id data_of.provider_slug
        data_of.valid_public_key
  handle_job (refund_received events) =
      handle_refund_received o d events data_of.client_id data_of.provider_slug
        data_of.valid_public_key
  handle_job (refund_cleared events) =
      handle_refund_cleared o d events data_of.client_id data_of.provider_slug
        data_of.valid_public_key

  -- `onFailed`
  unfoldable pub on_failed : TedWebhookJob → FailedJob → Exec (Db o) (Unit {0})
  on_failed (cash_out_approved events) job =
      on_failed_events o d (λ it. truthy_text it.authentication_code) "TED_TRANSFER"
        ted_cash_out_was_approved data_of.client_id job events
  on_failed (cash_out_done events) job =
      on_failed_events o d (λ it. truthy_text it.authentication_code) "TED_TRANSFER"
        ted_cash_out_was_done data_of.client_id job events
  on_failed (cash_out_canceled events) job =
      on_failed_events o d (λ it. truthy_text it.authentication_code) "TED_TRANSFER"
        ted_cash_out_was_canceled data_of.client_id job events
  on_failed (cash_out_reproved events) job =
      on_failed_events o d (λ it. truthy_text it.authentication_code) "TED_TRANSFER"
        ted_cash_out_was_reproved data_of.client_id job events
  on_failed (cash_out_undone events) job =
      on_failed_events o d (λ it. truthy_text it.authentication_code) "TED_TRANSFER"
        ted_cash_out_was_undone data_of.client_id job events
  on_failed (cash_in_received events) job =
      on_failed_events o d (λ it. truthy_text it.authentication_code) "TED_CASH_IN"
        ted_cash_in_was_received data_of.client_id job events
  on_failed (cash_in_cleared events) job =
      on_failed_events o d (λ it. truthy_text it.authentication_code) "TED_CASH_IN"
        ted_cash_in_was_cleared data_of.client_id job events
  on_failed (refund_received events) job =
      on_failed_events o d (λ it. truthy_text it.authentication_code) "TED_REFUND"
        ted_refund_was_received data_of.client_id job events
  on_failed (refund_cleared events) job =
      on_failed_events o d (λ it. truthy_text it.authentication_code) "TED_REFUND"
        ted_refund_was_cleared data_of.client_id job events

  -- A TED job whose public key was not valid answers ok and writes nothing, whatever its type, events
  -- and provider.
  pub unverified_ted_job :
      (job : TedWebhookJob) (db : Db o)
      → data_of.valid_public_key ≡ false
      → handle_job job db ≡ (ok tt, db)
  unfolding handle_job process_cash_out_event handle_cash_out_approved handle_cash_out_done
      handle_cash_out_canceled handle_cash_out_reproved handle_cash_out_undone
      handle_cash_in_received handle_cash_in_cleared handle_refund_received handle_refund_cleared
  unverified_ted_job (cash_out_approved events) db h = rw h refl
  unverified_ted_job (cash_out_done events) db h = rw h refl
  unverified_ted_job (cash_out_canceled events) db h = rw h refl
  unverified_ted_job (cash_out_reproved events) db h = rw h refl
  unverified_ted_job (cash_out_undone events) db h = rw h refl
  unverified_ted_job (cash_in_received events) db h = rw h refl
  unverified_ted_job (cash_in_cleared events) db h = rw h refl
  unverified_ted_job (refund_received events) db h = rw h refl
  unverified_ted_job (refund_cleared events) db h = rw h refl
