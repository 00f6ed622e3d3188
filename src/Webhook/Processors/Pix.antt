-- ===== src/Webhook/Processors/Pix.antt =====
-- The queue of PIX webhooks (src/webhook-processor/processors/pix-webhook.processor.ts,
-- src/webhook-processor/interfaces/pix-webhook-job.type.ts).
use api_payment.Common.{◌≡◌, false, none, List, truthy_text, truthy}
use api_payment.Common.Exec.{Exec}
use api_payment.Platform.{TypeOrm}
use api_payment.Platform.Dates.{DateParsers}
use api_payment.Database.{Db}
use api_payment.Webhook.Event.{
  pix_cash_in_was_received, pix_cash_in_was_cleared, pix_cashout_was_completed,
  pix_cashout_was_canceled, pix_cashout_was_undone, pix_refund_was_received, pix_refund_was_cleared,
  pix_qrcode_was_created,
}
use api_payment.Webhook.Payload.{WebhookPayload}
use api_payment.Webhook.Steps.Frame.{if_invalid-state}
use api_payment.Webhook.Pix.Data.{
  PixCashInReceivedData, PixCashInClearedData, PixCashOutData, PixRefundData, PixQrCodeCreatedData,
}
use api_payment.Webhook.Pix.CashIn.{handle_cash_in_received, handle_cash_in_cleared}
use api_payment.Webhook.Pix.CashOut.{
  process_cash_out_event, handle_cash_out_completed, handle_cash_out_canceled,
  handle_cash_out_undone,
}
use api_payment.Webhook.Pix.Refund.{handle_refund_received, handle_refund_cleared}
use api_payment.Webhook.Pix.QrCode.{handle_qr_code_created}
use api_payment.Webhook.Processors.{JobData, FailedJob, on_failed_events}

-- The event type of a job with its events.
pub data PixWebhookJob : Type 0 where
  cash_in_received : List (WebhookPayload PixCashInReceivedData) → PixWebhookJob
  cash_in_cleared : List (WebhookPayload PixCashInClearedData) → PixWebhookJob
  cash_out_completed : List (WebhookPayload PixCashOutData) → PixWebhookJob
  cash_out_canceled : List (WebhookPayload PixCashOutData) → PixWebhookJob
  cash_out_undone : List (WebhookPayload PixCashOutData) → PixWebhookJob
  refund_received : List (WebhookPayload PixRefundData) → PixWebhookJob
  refund_cleared : List (WebhookPayload PixRefundData) → PixWebhookJob
  qrcode_created : List (WebhookPayload PixQrCodeCreatedData) → PixWebhookJob

module _ (o : TypeOrm) (d : DateParsers) (data_of : JobData) where
  -- `handleJob`: what a handler throws is logged and thrown again.
  unfoldable pub handle_job : PixWebhookJob → Exec (Db o) (Unit {0})
  handle_job (cash_in_received events) =
      handle_cash_in_received o d events data_of.client_id data_of.provider_slug
        data_of.valid_public_key
  handle_job (cash_in_cleared events) =
      handle_cash_in_cleared o d events data_of.client_id data_of.provider_slug
        data_of.valid_public_key
  handle_job (cash_out_completed events) =
      handle_cash_out_completed o d events data_of.client_id data_of.provider_slug
        data_of.valid_public_key
  handle_job (cash_out_canceled events) =
      handle_cash_out_canceled o d events data_of.client_id data_of.provider_slug
        data_of.valid_public_key
  handle_job (cash_out_undone events) =
      handle_cash_out_undone o d events data_of.client_id data_of.provider_slug
        data_of.valid_public_key
  handle_job (refund_received events) =
      handle_refund_received o d events data_of.client_id data_of.provider_slug
        data_of.valid_public_key
  handle_job (refund_cleared events) =
      handle_refund_cleared o d events data_of.client_id data_of.provider_slug
        data_of.valid_public_key
  handle_job (qrcode_created events) =
      handle_qr_code_created o d events data_of.client_id data_of.provider_slug
        data_of.valid_public_key

  -- `onFailed`. The data of a QR code has no authentication code.
  unfoldable pub on_failed : PixWebhookJob → FailedJob → Exec (Db o) (Unit {0})
  on_failed (cash_in_received events) job =
      on_failed_events o d (λ it. truthy_text it.authentication_code) "PIX_CASH_IN"
        pix_cash_in_was_received data_of.client_id job events
  on_failed (cash_in_cleared events) job =
      on_failed_events o d (λ it. truthy it.authentication_code) "PIX_CASH_IN"
        pix_cash_in_was_cleared data_of.client_id job events
  on_failed (cash_out_completed events) job =
      on_failed_events o d (λ it. truthy_text it.authentication_code) "PIX_TRANSFER"
        pix_cashout_was_completed data_of.client_id job events
  on_failed (cash_out_canceled events) job =
      on_failed_events o d (λ it. truthy_text it.authentication_code) "PIX_TRANSFER"
        pix_cashout_was_canceled data_of.client_id job events
  on_failed (cash_out_undone events) job =
      on_failed_events o d (λ it. truthy_text it.authentication_code) "PIX_TRANSFER"
        pix_cashout_was_undone data_of.client_id job events
  on_failed (refund_received events) job =
      on_failed_events o d (λ it. truthy_text it.authentication_code) "PIX_REFUND"
        pix_refund_was_received data_of.client_id job events
  on_failed (refund_cleared events) job =
      on_failed_events o d (λ it. truthy_text it.authentication_code) "PIX_REFUND"
        pix_refund_was_cleared data_of.client_id job events
  on_failed (qrcode_created events) job =
      on_failed_events o d (λ it. none) "PIX_QR_CODE" pix_qrcode_was_created data_of.client_id job
        events

  -- A PIX job whose public key was not valid writes nothing, whatever its type, events and provider.
  pub unverified_pix_job :
      (job : PixWebhookJob) (db : Db o)
      → data_of.valid_public_key ≡ false
      → (handle_job job db).1 ≡ db
  unfolding handle_job handle_cash_in_received handle_cash_in_cleared process_cash_out_event
      handle_cash_out_completed handle_cash_out_canceled handle_cash_out_undone
      handle_refund_received handle_refund_cleared handle_qr_code_created
  unverified_pix_job (cash_in_received events) db h = if_invalid-state _ _ _ db h
  unverified_pix_job (cash_in_cleared events) db h = if_invalid-state _ _ _ db h
  unverified_pix_job (cash_out_completed events) db h = if_invalid-state _ _ _ db h
  unverified_pix_job (cash_out_canceled events) db h = if_invalid-state _ _ _ db h
  unverified_pix_job (cash_out_undone events) db h = if_invalid-state _ _ _ db h
  unverified_pix_job (refund_received events) db h = if_invalid-state _ _ _ db h
  unverified_pix_job (refund_cleared events) db h = if_invalid-state _ _ _ db h
  unverified_pix_job (qrcode_created events) db h = if_invalid-state _ _ _ db h
