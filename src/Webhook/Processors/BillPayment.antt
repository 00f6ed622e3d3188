-- ===== src/Webhook/Processors/BillPayment.antt =====
-- The queue of bill payment webhooks (src/webhook-processor/processors/bill-payment-webhook.processor.ts,
-- src/webhook-processor/interfaces/bill-payment-webhook-job.interface.ts).
use api_payment.Common.{◌≡◌, false, some, List}
use api_payment.Common.Exec.{Exec}
use api_payment.Platform.{TypeOrm}
use api_payment.Platform.Dates.{DateParsers}
use api_payment.Database.{Db}
use api_payment.Webhook.Payload.{WebhookPayload}
use api_payment.Webhook.Steps.Frame.{if_invalid-state}
use api_payment.Webhook.Event.{
  bill_payment_was_received, bill_payment_was_created, bill_payment_was_confirmed,
  bill_payment_has_failed, bill_payment_was_cancelled, bill_payment_was_refused,
}
use api_payment.Webhook.BillPayment.Data.{BillPaymentWebhookData}
use api_payment.Webhook.BillPayment.{
  handle, handle_received, handle_created, handle_confirmed, handle_failed, handle_cancelled,
  handle_refused,
}
use api_payment.Webhook.Processors.{JobData, FailedJob, on_failed_events}

-- The event type of a job with its events.
pub data BillPaymentWebhookJob : Type 0 where
  received : List (WebhookPayload BillPaymentWebhookData) → BillPaymentWebhookJob
  created : List (WebhookPayload BillPaymentWebhookData) → BillPaymentWebhookJob
  confirmed : List (WebhookPayload BillPaymentWebhookData) → BillPaymentWebhookJob
  failed : List (WebhookPayload BillPaymentWebhookData) → BillPaymentWebhookJob
  cancelled : List (WebhookPayload BillPaymentWebhookData) → BillPaymentWebhookJob
  refused : List (WebhookPayload BillPaymentWebhookData) → BillPaymentWebhookJob

module _ (o : TypeOrm) (d : DateParsers) (data_of : JobData) where
  -- `handleJob`: what a handler throws is logged and thrown again.
  unfoldable pub handle_job : BillPaymentWebhookJob → Exec (Db o) (Unit {0})
  handle_job (received events) =
      handle_received o d events data_of.client_id data_of.provider_slug data_of.valid_public_key
  handle_job (created events) =
      handle_created o d events data_of.client_id data_of.provider_slug data_of.valid_public_key
  handle_job (confirmed events) =
      handle_confirmed o d events data_of.client_id data_of.provider_slug data_of.valid_public_key
  handle_job (failed events) =
      handle_failed o d events data_of.client_id data_of.provider_slug data_of.valid_public_key
  handle_job (cancelled events) =
      handle_cancelled o d events data_of.client_id data_of.provider_slug data_of.valid_public_key
  handle_job (refused events) =
      handle_refused o d events data_of.client_id data_of.provider_slug data_of.valid_public_key

  -- `onFailed`
  unfoldable pub on_failed : BillPaymentWebhookJob → FailedJob → Exec (Db o) (Unit {0})
  on_failed (received events) job =
      on_failed_events o d (λ it. some it.authentication_code) "BILL_PAYMENT"
        bill_payment_was_received data_of.client_id job events
  on_failed (created events) job =
      on_failed_events o d (λ it. some it.authentication_code) "BILL_PAYMENT"
        bill_payment_was_created data_of.client_id job events
  on_failed (confirmed events) job =
      on_failed_events o d (λ it. some it.authentication_code) "BILL_PAYMENT"
        bill_payment_was_confirmed data_of.client_id job events
  on_failed (failed events) job =
      on_failed_events o d (λ it. some it.authentication_code) "BILL_PAYMENT"
        bill_payment_has_failed data_of.client_id job events
  on_failed (cancelled events) job =
      on_failed_events o d (λ it. some it.authentication_code) "BILL_PAYMENT"
        bill_payment_was_cancelled data_of.client_id job events
  on_failed (refused events) job =
      on_failed_events o d (λ it. some it.authentication_code) "BILL_PAYMENT"
        bill_payment_was_refused data_of.client_id job events

  -- A bill payment job whose public key was not valid writes nothing, whatever its type, events and
  -- provider.
  pub unverified_bill_payment_job :
      (job : BillPaymentWebhookJob) (db : Db o)
      → data_of.valid_public_key ≡ false
      → (handle_job job db).1 ≡ db
  unfolding handle_job handle handle_received handle_created handle_confirmed handle_failed
      handle_cancelled handle_refused
  unverified_bill_payment_job (received events) db h = if_invalid-state _ _ _ db h
  unverified_bill_payment_job (created events) db h = if_invalid-state _ _ _ db h
  unverified_bill_payment_job (confirmed events) db h = if_invalid-state _ _ _ db h
  unverified_bill_payment_job (failed events) db h = if_invalid-state _ _ _ db h
  unverified_bill_payment_job (cancelled events) db h = if_invalid-state _ _ _ db h
  unverified_bill_payment_job (refused events) db h = if_invalid-state _ _ _ db h
