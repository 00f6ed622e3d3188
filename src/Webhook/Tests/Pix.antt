-- ===== src/Webhook/Tests/Pix.antt =====
-- The PIX handlers on a database in memory.
use api_payment.Common.{◌≡◌, refl, none, some, [], ◌∷◌, true, false, str_eq}
use api_payment.Common.Lists.{length}
use api_payment.Common.Exec.{query_failed, throw, Exception, Result}
use api_payment.Platform.{Row}
use api_payment.Platform.Dates.{parse_date}
use api_payment.Platform.Financial.{hiperbanco}
use api_payment.Platform.Memory.{flaky, memory, memory-IsLawful}
use api_payment.Database.{Db}
use api_payment.Account.{find_by_number}
use api_payment.Pix.Entities.{PixCashIn, PixTransfer, PixTransferStatus}
use api_payment.Transaction.Service.{create_from_webhook, update_from_webhook}
use api_payment.Webhook.Event.{pix_cashout_was_completed, pix_cash_in_was_received}
use api_payment.Webhook.EventLog.{get_last_processed_event, log_event}
use api_payment.Webhook.Payload.{WebhookPayload, to_payload}
use api_payment.Webhook.StateMachine.{can_process_webhook}
use api_payment.Webhook.Status.{map_webhook_event_to_transaction_status}
use api_payment.Webhook.Pix.Data.{PixCashOutData, PixCashInReceivedData, PixCashInClearedData}
use api_payment.Webhook.Steps.{
  parse_financial_provider, parse_optional, process_in_sequence, check_sequence, save_and_update,
  update_transaction, create_transaction, log_processed,
}
use api_payment.Webhook.Pix.CashOut.{transfer_after, cash_out_event, process_cash_out_event}
use api_payment.Webhook.Pix.CashOut.Sequence.{process_pix_cash_out-again}
use api_payment.Webhook.Pix.CashIn.{new_cash_in, pay_qr_code, cash_in_received, cash_in_cleared}
use api_payment.Webhook.Pix.CashIn.Cleared.{pix_cash_in_cleared-again}
use api_payment.Webhook.Tests.Fixtures.{
  account, clock, database, database_at, payload, amount, recipient, no_sender, no_recipient,
}

abbrev transfer : PixTransfer
transfer = record {
  amount = some 1500;
  currency = "BRL";
  description = none;
  provider_slug = hiperbanco;
  client_id = "client";
  account_id = some "account";
  status = PixTransferStatus.created;
  type = none;
  channel = none;
  initialization_type = "KEY";
  end_to_end_id = none;
  pix_key = none;
  transaction_id = none;
  authentication_code = some "code";
  correlation_id = none;
  idempotency_key = none;
  sender = no_sender;
  recipient = no_recipient;
  payment_date = none;
  is_refund = false;
  end_to_end_id_original = none;
  refusal_reason = none;
  is_pix_open_banking = false;
  is_internal = false;
}

abbrev with_transfer : Db memory
with_transfer = record database {
  pix_transfers = record { id = "transfer"; fields = transfer } ∷ [];
}

abbrev completed : WebhookPayload PixCashOutData
completed = payload "PIX_CASHOUT_WAS_COMPLETED" (record {
  authentication_code = "code";
  amount = amount;
  description = none;
  sender = none;
  channel = none;
  payment_date = some "2025-01-02";
  is_refund = none;
  end_to_end_id_original = none;
})

abbrev completed_once : Db memory
completed_once =
    (cash_out_event memory clock PixTransferStatus.done pix_cashout_was_completed "client" completed
      with_transfer).1

completed_ok :
    cash_out_event memory clock PixTransferStatus.done pix_cashout_was_completed "client" completed
      with_transfer
    ≡ (Result.ok tt, completed_once)
unfolding cash_out_event process_in_sequence check_sequence get_last_processed_event
    can_process_webhook save_and_update update_transaction update_from_webhook
    map_webhook_event_to_transaction_status log_processed parse_date log_event to_payload
    transfer_after parse_optional
completed_ok = refl

slug_ok : parse_financial_provider "hiperbanco" ≡ Result.ok hiperbanco
unfolding parse_financial_provider
slug_ok = refl

process_pix_cash_out-again_example :
    let handler =
      process_cash_out_event memory clock PixTransferStatus.done pix_cashout_was_completed
        (completed ∷ completed ∷ [])
        "client"
        "hiperbanco"
        true in
    let after = (handler with_transfer).1 in (x : Exception) × (handler after ≡ (throw x, after))
process_pix_cash_out-again_example =
    process_pix_cash_out-again memory memory-IsLawful clock PixTransferStatus.done
      pix_cashout_was_completed "client" "hiperbanco" hiperbanco completed (completed ∷ [])
      with_transfer completed_once slug_ok completed_ok

abbrev received : WebhookPayload PixCashInReceivedData
received = payload "PIX_CASH_IN_WAS_RECEIVED" (record {
  authentication_code = "code";
  amount = amount;
  description = some "Lunch";
  addressing_key = none;
  recipient = recipient;
  channel = none;
  created_at = some "2025-01-02";
})

-- The first delivery creates the PIX, its transaction and a line of the log.
received_writes :
    let after = (cash_in_received memory clock hiperbanco received database).1 in
    (length after.pix_cash_ins ≡ 1)
    × (length after.transactions ≡ 1)
    × (length after.event_logs ≡ 1)
unfolding cash_in_received new_cash_in find_by_number pay_qr_code create_transaction
    create_from_webhook log_processed log_event parse_date parse_optional
received_writes = (refl, refl, refl)

-- A database whose next write of a PIX fails, and no other
abbrev unlucky : Db flaky
unlucky = record {
  accounts = (0, account ∷ []);
  transactions = (0, []);
  event_logs = (0, []);
  pix_cash_ins = (1, []);
  pix_refunds = (0, []);
  pix_transfers = (0, []);
  pix_qr_codes = (0, []);
  boletos = (0, []);
  bill_payments = (0, []);
  ted_transfers = (0, []);
  ted_cash_ins = (0, []);
  ted_refunds = (0, []);
}

-- The first delivery throws and stores nothing; the second one stores the PIX, and the third writes
-- nothing more.
received_at_last :
    let first = cash_in_received flaky clock hiperbanco received unlucky in
    let second = cash_in_received flaky clock hiperbanco received first.1 in
    let third = cash_in_received flaky clock hiperbanco received second.1 in
    (first.0 ≡ Result.throw query_failed)
    × (length first.1.pix_cash_ins.1 ≡ 0)
    × (second.0 ≡ Result.ok tt)
    × (length second.1.pix_cash_ins.1 ≡ 1)
    × (third.1 ≡ second.1)
unfolding cash_in_received new_cash_in find_by_number pay_qr_code create_transaction
    create_from_webhook log_processed log_event parse_date parse_optional
received_at_last = (refl, refl, refl, refl, refl)

abbrev cash_in : Row PixCashIn
cash_in = record { id = "cash in"; fields = new_cash_in received hiperbanco account none }

abbrev received_database : Db memory
received_database = record (database_at pix_cash_in_was_received) { pix_cash_ins = cash_in ∷ [] }

abbrev cleared : WebhookPayload PixCashInClearedData
cleared = payload "PIX_CASH_IN_WAS_CLEARED" (record {
  authentication_code = none;
  amount = amount;
  description = none;
  recipient = recipient;
  channel = none;
})

-- The event names its payment by its entity id.
abbrev cleared_by_id : WebhookPayload PixCashInClearedData
cleared_by_id = record cleared { entity_id = "code" }

abbrev cleared_database : Db memory
cleared_database = (cash_in_cleared memory clock "client" cleared_by_id received_database).1

found_cash_in :
    memory.find_one PixCashIn
      (λ p. str_eq p.authentication_code "code")
      received_database.pix_cash_ins
    ≡ Result.ok (some cash_in)
unfolding new_cash_in
found_cash_in = refl

cleared_ok :
    cash_in_cleared memory clock "client" cleared_by_id received_database
    ≡ (Result.ok tt, cleared_database)
unfolding cash_in_cleared new_cash_in process_in_sequence check_sequence get_last_processed_event
    can_process_webhook save_and_update update_transaction update_from_webhook
    map_webhook_event_to_transaction_status log_processed parse_date log_event to_payload
cleared_ok = refl

pix_cash_in_cleared-again_example :
    (x : Exception) × (cash_in_cleared memory clock "client" cleared_by_id cleared_database
      ≡ (throw x, cleared_database))
pix_cash_in_cleared-again_example =
    pix_cash_in_cleared-again memory memory-IsLawful clock "client" "code" cleared_by_id cash_in
      received_database cleared_database refl found_cash_in cleared_ok
