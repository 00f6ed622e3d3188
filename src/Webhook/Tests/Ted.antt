-- ===== src/Webhook/Tests/Ted.antt =====
-- The TED handlers on a database in memory.
use api_payment.Common.{◌≡◌, refl, Option, none, some, [], ◌∷◌, true, str_eq}
use api_payment.Common.Exec.{throw, Exception, Result}
use api_payment.Platform.{Row}
use api_payment.Platform.Dates.{parse_date}
use api_payment.Platform.Financial.{hiperbanco}
use api_payment.Platform.Memory.{memory, memory-IsLawful}
use api_payment.Database.{Db}
use api_payment.Ted.Entities.{TedTransfer, TedTransferStatus, TedCashIn, TedRefund}
use api_payment.Transaction.Service.{update_from_webhook}
use api_payment.Webhook.Event.{
  ted_cash_out_was_approved, ted_cash_in_was_received, ted_refund_was_received,
}
use api_payment.Webhook.EventLog.{get_last_processed_event, log_event}
use api_payment.Webhook.Payload.{WebhookPayload, to_payload}
use api_payment.Webhook.StateMachine.{can_process_webhook}
use api_payment.Webhook.Status.{map_webhook_event_to_transaction_status}
use api_payment.Webhook.Steps.{
  parse_optional, process_in_sequence, check_sequence, save_and_update, update_transaction,
  log_processed,
}
use api_payment.Webhook.Ted.Data.{TedParticipantData, TedCashOutData, TedCashInData, TedRefundData}
use api_payment.Webhook.Ted.CashOut.{transfer_after, cash_out_event, process_cash_out_event}
use api_payment.Webhook.Ted.CashOut.Sequence.{process_ted_cash_out-again}
use api_payment.Webhook.Ted.CashIn.{new_cash_in, cash_in_cleared}
use api_payment.Webhook.Ted.Refund.{new_refund, refund_cleared}
use api_payment.Webhook.Tests.Fixtures.{
  account, clock, database, database_at, payload, amount, no_sender,
}

abbrev pub transfer : TedTransfer
transfer = record {
  amount = some 1500;
  currency = "BRL";
  description = none;
  provider_slug = hiperbanco;
  client_id = "client";
  account_id = some "account";
  status = TedTransferStatus.created;
  authentication_code = some "code";
  correlation_id = none;
  idempotency_key = none;
  provider_transaction_id = none;
  channel = none;
  payment_date = none;
  refusal_reason = none;
  sender = some no_sender;
  recipient = none;
  provider_created_at = none;
}

abbrev with_transfer : Db memory
with_transfer = record database {
  ted_transfers = record { id = "transfer"; fields = transfer } ∷ [];
}

abbrev party : Option TedParticipantData
party = some (record {
  document = some "123";
  name = some " ";
  account = some (record { branch = some "0001"; number = some "12345"; type = none; bank = none });
})

abbrev pub approved : WebhookPayload TedCashOutData
approved = payload "TED_CASH_OUT_WAS_APPROVED" (record {
  authentication_code = "code";
  amount = amount;
  description = none;
  status = "APPROVED";
  channel = none;
  payment_date = some "2025-01-02";
  refusal_reason = none;
  sender = party;
  recipient = party;
  created_at = none;
  updated_at = none;
})

abbrev approved_database : Db memory
approved_database =
    (cash_out_event memory clock TedTransferStatus.approved ted_cash_out_was_approved "client"
      approved with_transfer).1

approved_ok :
    cash_out_event memory clock TedTransferStatus.approved ted_cash_out_was_approved "client"
      approved with_transfer
    ≡ (Result.ok tt, approved_database)
unfolding cash_out_event process_in_sequence check_sequence get_last_processed_event
    can_process_webhook save_and_update update_transaction update_from_webhook
    map_webhook_event_to_transaction_status log_processed parse_date log_event to_payload
    transfer_after parse_optional
approved_ok = refl

process_ted_cash_out-again_example :
    let handler =
      process_cash_out_event memory clock TedTransferStatus.approved ted_cash_out_was_approved
        (approved ∷ approved ∷ [])
        "client"
        "hiperbanco"
        true in
    let after = (handler with_transfer).1 in (x : Exception) × (handler after ≡ (throw x, after))
process_ted_cash_out-again_example =
    process_ted_cash_out-again memory memory-IsLawful clock TedTransferStatus.approved
      ted_cash_out_was_approved "client" "hiperbanco" approved (approved ∷ []) with_transfer
      approved_database approved_ok

abbrev received : WebhookPayload TedCashInData
received = payload "TED_CASH_IN_WAS_RECEIVED" (record {
  authentication_code = "code";
  amount = amount;
  description = none;
  channel = none;
  sender = none;
  recipient = party;
  created_at = none;
})

abbrev cash_in : Row TedCashIn
cash_in = record { id = "cash in"; fields = new_cash_in received hiperbanco account none }

abbrev received_database : Db memory
received_database = record (database_at ted_cash_in_was_received) { ted_cash_ins = cash_in ∷ [] }

abbrev cleared_database : Db memory
cleared_database = (cash_in_cleared memory clock "client" received received_database).1

cash_in_found :
    memory.find_one TedCashIn
      (λ p. str_eq p.authentication_code "code")
      received_database.ted_cash_ins
    ≡ Result.ok (some cash_in)
unfolding new_cash_in
cash_in_found = refl

cash_in_ok :
    cash_in_cleared memory clock "client" received received_database
    ≡ (Result.ok tt, cleared_database)
unfolding cash_in_cleared new_cash_in process_in_sequence check_sequence get_last_processed_event
    can_process_webhook save_and_update update_transaction update_from_webhook
    map_webhook_event_to_transaction_status log_processed parse_date log_event to_payload
cash_in_ok = refl

abbrev refund_data : WebhookPayload TedRefundData
refund_data = payload "TED_REFUND_WAS_RECEIVED" (record {
  authentication_code = "code";
  original_authentication_code = some "original";
  amount = amount;
  description = none;
  refund_reason = none;
  error_code = none;
  error_reason = none;
  sender = party;
  recipient = none;
  created_at = none;
})

abbrev refund : Row TedRefund
refund = record {
  id = "refund";
  fields = new_refund refund_data hiperbanco "client" none none none;
}

abbrev refund_database : Db memory
refund_database = record (database_at ted_refund_was_received) { ted_refunds = refund ∷ [] }

abbrev refunded_database : Db memory
refunded_database = (refund_cleared memory clock "client" refund_data refund_database).1

refund_found :
    memory.find_one TedRefund (λ p. str_eq p.authentication_code "code") refund_database.ted_refunds
    ≡ Result.ok (some refund)
unfolding new_refund
refund_found = refl

refund_ok :
    refund_cleared memory clock "client" refund_data refund_database
    ≡ (Result.ok tt, refunded_database)
unfolding refund_cleared new_refund process_in_sequence check_sequence get_last_processed_event
    can_process_webhook save_and_update update_transaction update_from_webhook
    map_webhook_event_to_transaction_status log_processed parse_date log_event to_payload
refund_ok = refl
