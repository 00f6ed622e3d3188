-- ===== src/Webhook/Tests/PixRefund.antt =====
-- The handlers of PIX refunds and QR codes on a database in memory.
use api_payment.Common.{◌≡◌, refl, none, some, [], ◌∷◌, true, str_eq}
use api_payment.Common.Exec.{Result}
use api_payment.Platform.{Row}
use api_payment.Platform.Dates.{parse_date}
use api_payment.Platform.Financial.{hiperbanco}
use api_payment.Platform.Memory.{memory}
use api_payment.Database.{Db}
use api_payment.Pix.Entities.{PixRefund}
use api_payment.Transaction.Service.{update_from_webhook}
use api_payment.Webhook.Event.{pix_refund_was_received}
use api_payment.Webhook.EventLog.{get_last_processed_event, log_event}
use api_payment.Webhook.Payload.{WebhookPayload, to_payload}
use api_payment.Webhook.StateMachine.{can_process_webhook}
use api_payment.Webhook.Status.{map_webhook_event_to_transaction_status}
use api_payment.Webhook.Pix.Data.{PixRefundData, PixQrCodeCreatedData}
use api_payment.Webhook.Steps.{
  process_in_sequence, check_sequence, save_and_update, update_transaction, log_processed,
}
use api_payment.Webhook.Pix.Refund.{new_refund, refund_cleared}
use api_payment.Webhook.Tests.Fixtures.{clock, database_at, payload, amount, recipient}

abbrev refund_data : WebhookPayload PixRefundData
refund_data = payload "PIX_REFUND_WAS_RECEIVED" (record {
  authentication_code = "code";
  amount = amount;
  description = none;
  recipient = recipient;
  channel = none;
  created_at = none;
})

abbrev refund : Row PixRefund
refund = record {
  id = "refund";
  fields = new_refund refund_data hiperbanco "client" none none none;
}

abbrev refund_database : Db memory
refund_database = record (database_at pix_refund_was_received) { pix_refunds = refund ∷ [] }

abbrev refunded_database : Db memory
refunded_database = (refund_cleared memory clock "client" refund_data refund_database).1

found_refund :
    memory.find_one PixRefund (λ p. str_eq p.authentication_code "code") refund_database.pix_refunds
    ≡ Result.ok (some refund)
unfolding new_refund
found_refund = refl

refund_cleared_ok :
    refund_cleared memory clock "client" refund_data refund_database
    ≡ (Result.ok tt, refunded_database)
unfolding refund_cleared new_refund process_in_sequence check_sequence get_last_processed_event
    can_process_webhook save_and_update update_transaction update_from_webhook
    map_webhook_event_to_transaction_status log_processed parse_date log_event to_payload
refund_cleared_ok = refl

abbrev qr_code : WebhookPayload PixQrCodeCreatedData
qr_code = payload "PIX_QRCODE_WAS_CREATED" (record {
  partner_key = "partner";
  conciliation_id = "conciliation";
  addressing_key_type = "EVP";
  addressing_key_value = "key";
  amount = 1500;
  single_payment = true;
  type = "DYNAMIC";
  purpose = "payment";
  encoded_value = "0002";
  change_amount_type = none;
  format = "text";
  created_at = "2025-01-02";
  expires_at = some "2025-01-03";
  payment_date_limit = none;
  recipient = record { type = "PF"; document_number = "123"; name = some "Ana" };
})
