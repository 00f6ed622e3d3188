-- ===== src/Webhook/Tests/Bills.antt =====
-- The boleto and bill payment handlers on a database in memory.
use api_payment.Common.{◌≤◌, ◌≡◌, refl, none, some, [], ◌∷◌, true}
use api_payment.Common.Exec.{throw, Exception, Result}
use api_payment.Platform.{Row}
use api_payment.Platform.Dates.{parse_date}
use api_payment.Platform.Financial.{hiperbanco}
use api_payment.Platform.Memory.{memory, memory-IsLawful}
use api_payment.Database.{Db}
use api_payment.Boleto.Entities.{Boleto, BoletoStatus, BoletoType}
use api_payment.BillPayment.Entities.{BillPayment, BillPaymentStatus}
use api_payment.Webhook.Event.{
  boleto_was_registered, boleto_cash_in_was_cleared, bill_payment_was_received,
  bill_payment_was_created,
}
use api_payment.Webhook.EventLog.{get_last_processed_event, log_event}
use api_payment.Webhook.Payload.{WebhookPayload, to_payload}
use api_payment.Webhook.StateMachine.{can_process_webhook, is_terminal_event}
use api_payment.Webhook.Steps.{
  parse_financial_provider, process_in_sequence, check_sequence, log_processed,
}
use api_payment.Webhook.Steps.Check.{IsAt}
use api_payment.Webhook.Steps.History.{Runs, history-IsAccepted}
use api_payment.Webhook.StateMachine.Chains.{IsAccepted}
use api_payment.Common.Lists.{length}
use api_payment.Webhook.Boleto.{
  BoletoWebhookData, find_boleto, boleto_registered, boleto_received, boleto_cleared,
  boleto_cancelled,
}
use api_payment.Webhook.Boleto.Sequence.{boleto-closed, boleto_registered-reopens}
use api_payment.Webhook.BillPayment.Changes.{created_after}
use api_payment.Webhook.BillPayment.{write_of, bill_payment_event, handle}
use api_payment.Webhook.BillPayment.Data.{BillPaymentWebhookData}
use api_payment.Webhook.BillPayment.Sequence.{bill_payment-again}
use api_payment.Webhook.Tests.Fixtures.{clock, database_at, database_at-IsAt, payload, amount}

abbrev boleto : Boleto
boleto = record {
  amount = some 1500;
  currency = "BRL";
  description = none;
  provider_slug = hiperbanco;
  client_id = "client";
  account_id = some "account";
  alias = none;
  type = BoletoType.deposit;
  status = BoletoStatus.paid;
  due_date = 20000;
  close_payment = none;
  document_number = "123";
  account_number = "12345";
  account_branch = "0001";
  payer = record { name = "Ana"; trade_name = none; document = "123"; address = none };
  interest_start_date = none;
  interest_value = none;
  interest_type = none;
  fine_start_date = none;
  fine_value = none;
  fine_type = none;
  discount_limit_date = none;
  discount_value = none;
  discount_type = none;
  authentication_code = some "code";
  barcode = none;
  digitable = none;
  our_number = none;
  payments = none;
  cancel_reason = none;
}

abbrev boleto_row : Row Boleto
boleto_row = record { id = "boleto"; fields = boleto }

-- A boleto that was paid.
abbrev paid_database : Db memory
paid_database = record (database_at boleto_cash_in_was_cleared) { boletos = boleto_row ∷ [] }

abbrev boleto_event_again : WebhookPayload BoletoWebhookData
boleto_event_again = payload "BOLETO_WAS_REGISTERED" (record {
  authentication_code = "code";
  barcode = none;
  digitable = none;
  amount = amount;
  channel = none;
  reason = none;
  created_at = none;
})

cleared-IsTerminal : is_terminal_event "BOLETO_CASH_IN_WAS_CLEARED" ≡ true
unfolding is_terminal_event
cleared-IsTerminal = refl

boleto-closed_example :
    ((boleto_received memory clock "client" boleto_event_again paid_database).1 ≡ paid_database)
    × ((boleto_cleared memory clock "client" boleto_event_again paid_database).1 ≡ paid_database)
    × ((boleto_cancelled memory clock "client" boleto_event_again paid_database).1 ≡ paid_database)
boleto-closed_example =
    boleto-closed memory clock boleto_event_again "client" boleto_cash_in_was_cleared paid_database
      memory-IsLawful (database_at-IsAt boleto_cash_in_was_cleared) cleared-IsTerminal

boleto_found :
    find_boleto memory "code" none paid_database ≡ (Result.ok (some boleto_row), paid_database)
unfolding find_boleto
boleto_found = refl

date_read : parse_date clock "2025-01-02T03:04:05Z" ≡ Result.ok 20000
unfolding parse_date
date_read = refl

boleto_registered-reopens_example :
    let run = boleto_registered memory clock "client" boleto_event_again paid_database in
    (run.0 ≡ Result.ok tt) × IsAt memory "code" boleto_was_registered run.1
boleto_registered-reopens_example =
    boleto_registered-reopens memory memory-IsLawful clock boleto_event_again "client" boleto_row _
      _ 20000 _ _ paid_database boleto_found refl date_read refl

abbrev bill : BillPayment
bill = record {
  amount = some 1500;
  currency = "BRL";
  description = none;
  provider_slug = hiperbanco;
  client_id = "client";
  account_id = some "account";
  status = BillPaymentStatus.created;
  digitable = "123";
  validation_id = none;
  authentication_code = some "code";
  transaction_id = none;
  assignor = none;
  recipient = none;
  original_amount = none;
  interest_amount = none;
  fine_amount = none;
  discount_amount = none;
  due_date = none;
  settle_date = none;
  payment_date = none;
  confirmed_at = none;
  bank_branch = "0001";
  bank_account = "12345";
  confirmation_transaction_id = none;
  error_code = none;
  error_message = none;
  cancel_reason = none;
}

abbrev bill_row : Row BillPayment
bill_row = record { id = "bill"; fields = bill }

abbrev bill_database : Db memory
bill_database = record (database_at bill_payment_was_received) { bill_payments = bill_row ∷ [] }

abbrev created : WebhookPayload BillPaymentWebhookData
created = payload "BILL_PAYMENT_WAS_CREATED" (record {
  authentication_code = "code";
  payment_status = none;
  payment_type = none;
  transaction_id = none;
  confirmation_transaction_id = some 77;
  confirmed_at = none;
  settle_date = none;
  payment_date = none;
  updated_at = none;
  created_at = none;
  due_date = none;
  assignor = none;
  type = none;
  recipient = none;
  account = none;
  digitable = none;
  description = none;
  amount = amount;
  original_amount = none;
  charges = none;
  error = none;
  reason = none;
  document = none;
})

abbrev created_database : Db memory
created_database =
    (bill_payment_event memory clock bill_payment_was_created "client" created bill_database).1

created_ok :
    bill_payment_event memory clock bill_payment_was_created "client" created bill_database
    ≡ (Result.ok tt, created_database)
unfolding bill_payment_event write_of created_after process_in_sequence check_sequence
    get_last_processed_event can_process_webhook log_processed log_event parse_date to_payload
created_ok = refl

-- A bill payment that was received, which its handler logs without asking for the sequence, is created.
created_run :
    process_in_sequence memory clock "code" bill_payment_was_created
      (write_of memory clock bill_payment_was_created created bill_row)
      "BILL_PAYMENT"
      "bill"
      created
      "client"
      bill_database
    ≡ (Result.ok tt, created_database)
unfolding bill_payment_event write_of created_after process_in_sequence check_sequence
    get_last_processed_event can_process_webhook log_processed log_event parse_date to_payload
created_run = refl

history-IsAccepted_example :
    IsAccepted (some bill_payment_was_received) (bill_payment_was_created ∷ [])
    × (length (bill_payment_was_created ∷ []) ≤ 4)
history-IsAccepted_example =
    history-IsAccepted memory memory-IsLawful clock "code" (some bill_payment_was_received)
      bill_database created_database (bill_payment_was_created ∷ [])
      (database_at-IsAt bill_payment_was_received)
      (Runs.process bill_payment_was_created
        (write_of memory clock bill_payment_was_created created bill_row) "BILL_PAYMENT" "bill"
        "client" created created_run Runs.finish)

slug_ok : parse_financial_provider "hiperbanco" ≡ Result.ok hiperbanco
unfolding parse_financial_provider
slug_ok = refl

bill_payment-again_example :
    let handler =
      handle memory clock
        (bill_payment_event memory clock bill_payment_was_created)
        (created ∷ created ∷ [])
        "client"
        "hiperbanco"
        true in
    let after = (handler bill_database).1 in (x : Exception) × (handler after ≡ (throw x, after))
bill_payment-again_example =
    bill_payment-again memory clock bill_payment_was_created "client" "hiperbanco" hiperbanco
      created (created ∷ []) bill_database created_database memory-IsLawful slug_ok created_ok
