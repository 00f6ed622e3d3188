-- ===== src/Webhook/BillPayment.antt =====
-- The bill payment webhooks (src/webhook-processor/services/bill-payment-webhook.service.ts,
-- src/webhook-processor/interfaces/bill-payment-webhook.interface.ts).
pub mod Data
pub mod Changes
pub mod Sequence
use api_payment.Common.{
  ℕ, zero, suc, String, Bool, true, false, Option, none, some, List, truthy, or_text, or_option,
  or_amount, ◌&?◌,
}
use api_payment.Common.Exec.{Exec, not_found, raise, pure, lift, ◌>>=◌, ◌>>◌, for_each}
use api_payment.Platform.{Row, TypeOrm}
use api_payment.Platform.Dates.{Date, DateParsers}
use api_payment.Platform.Financial.{PaymentRecipient}
use api_payment.Database.{Db, find_one, update, bill_payment_repository}
use api_payment.BillPayment.Entities.{BillPayment, BillPaymentStatus}
use api_payment.Transaction.Status.{TransactionType}
use api_payment.Transaction.Service.{update_status}
use api_payment.Webhook.Event.{
  WebhookEvent, value, bill_payment_was_received, bill_payment_was_created,
  bill_payment_was_confirmed, bill_payment_has_failed, bill_payment_was_cancelled,
  bill_payment_was_refused,
}
use api_payment.Webhook.Status.{map_webhook_event_to_transaction_status}
use api_payment.Webhook.Payload.{WebhookPayload, ParticipantData}
use api_payment.Webhook.Steps.{
  parse_financial_provider, parse_optional, is_text, transaction_for, amount_value, amount_currency,
  process_found, create_transaction, log_processed, if_found, if_valid,
}
use api_payment.Common.Numbers.{text_of_number}
use Data.{BillPaymentWebhookData, digits_only}
use Changes.{
  received_after, created_after, confirmed_after, failed_after, cancelled_after, refused_after,
}

abbrev pub has_code : String → BillPayment → Bool
has_code code b = is_text code b.authentication_code

module _ (o : TypeOrm) (d : DateParsers) where
  abbrev save_bill_payment :
      (BillPayment → BillPayment) → Row BillPayment → Exec (Db o) (Row BillPayment)
  save_bill_payment change row =
      update o (bill_payment_repository o) (record row { fields = change row.fields })

  -- What `handleReceived` does with the bill payment that it found; it asks for no sequence.
  receive :
      WebhookPayload BillPaymentWebhookData → String → Row BillPayment → Exec (Db o) (Unit {0})
  receive event client_id row = do
    let it = event.event_data
    settle_date ← lift (parse_optional d it.settle_date)
    payment_date ← lift (parse_optional d it.payment_date)
    due_date ← lift (parse_optional d it.due_date)
    let received = received_after it settle_date payment_date due_date row.fields
    saved ← save_bill_payment (received_after it settle_date payment_date due_date) row
    create_transaction o d
        (λ date.
          record (transaction_for it.authentication_code event TransactionType.bill_payment
            bill_payment_was_received client_id date) {
              amount = or_amount (amount_value it.amount) received.amount;
              currency = some (amount_currency it.amount);
              account_id = received.account_id;
              bill_payment_id = some row.id;
            })
        event
    log_processed o d it.authentication_code "BILL_PAYMENT" row.id bill_payment_was_received event
        client_id

  -- One round of the loop of `handleReceived`.
  unfoldable pub bill_payment_received :
      String → WebhookPayload BillPaymentWebhookData → Exec (Db o) (Unit {0})
  unfolding receive
  bill_payment_received client_id event = do
    let code = event.event_data.authentication_code
    row ← find_one o (bill_payment_repository o) (has_code code)
    if_found (receive event client_id) (raise (not_found code (value bill_payment_was_received)))
        row

  write_created : WebhookPayload BillPaymentWebhookData → Row BillPayment → Exec (Db o) (Unit {0})
  write_created event row = do
    saved ← save_bill_payment (created_after event.event_data) row
    pure tt

  -- The bill payment is saved, and its transaction takes the status of the event.
  write_status :
      (BillPayment → BillPayment)
      → WebhookEvent
      → WebhookPayload BillPaymentWebhookData
      → Row BillPayment
      → Exec (Db o) (Unit {0})
  write_status change name event row = do
    saved ← save_bill_payment change row
    updated ←
        update_status o event.event_data.authentication_code
          (map_webhook_event_to_transaction_status (value name))
    pure tt

  write_confirmed : WebhookPayload BillPaymentWebhookData → Row BillPayment → Exec (Db o) (Unit {0})
  unfolding write_status
  write_confirmed event row = do
    confirmed_at ← lift (parse_optional d event.event_data.confirmed_at)
    write_status (confirmed_after confirmed_at) bill_payment_was_confirmed event row

  -- What each handler that is bound to the sequence writes between the check and the log; the last
  -- clause is that of `handleRefused`.
  unfoldable pub write_of :
      WebhookEvent
      → WebhookPayload BillPaymentWebhookData
      → Row BillPayment
      → Exec (Db o) (Unit {0})
  unfolding write_created write_status write_confirmed
  write_of bill_payment_was_created event = write_created event
  write_of bill_payment_was_confirmed event = write_confirmed event
  write_of bill_payment_has_failed event =
      write_status (failed_after event.event_data) bill_payment_has_failed event
  write_of bill_payment_was_cancelled event =
      write_status (cancelled_after event.event_data) bill_payment_was_cancelled event
  write_of name event = write_status (refused_after event.event_data) name event

  -- One round of the loop of a handler that is bound to the sequence.
  unfoldable pub bill_payment_event :
      WebhookEvent → String → WebhookPayload BillPaymentWebhookData → Exec (Db o) (Unit {0})
  unfolding write_of
  bill_payment_event name client_id event =
      let code = event.event_data.authentication_code in
      process_found o d (bill_payment_repository o) (has_code code) code name (write_of name event)
        "BILL_PAYMENT" event client_id

  unfoldable pub handle :
      (String → WebhookPayload BillPaymentWebhookData → Exec (Db o) (Unit {0}))
      → List (WebhookPayload BillPaymentWebhookData)
      → (client_id provider_slug : String) → Bool
      → Exec (Db o) (Unit {0})
  handle round events client_id provider_slug valid_public_key = do
    provider ← lift (parse_financial_provider provider_slug)
    if_valid valid_public_key (for_each (round client_id) events)

  unfoldable pub handle_received :
      List (WebhookPayload BillPaymentWebhookData) → String → String → Bool → Exec (Db o) (Unit {0})
  unfolding handle bill_payment_received
  handle_received = handle bill_payment_received

  unfoldable pub handle_created :
      List (WebhookPayload BillPaymentWebhookData) → String → String → Bool → Exec (Db o) (Unit {0})
  unfolding handle bill_payment_event
  handle_created = handle (bill_payment_event bill_payment_was_created)

  unfoldable pub handle_confirmed :
      List (WebhookPayload BillPaymentWebhookData) → String → String → Bool → Exec (Db o) (Unit {0})
  unfolding handle bill_payment_event
  handle_confirmed = handle (bill_payment_event bill_payment_was_confirmed)

  unfoldable pub handle_failed :
      List (WebhookPayload BillPaymentWebhookData) → String → String → Bool → Exec (Db o) (Unit {0})
  unfolding handle bill_payment_event
  handle_failed = handle (bill_payment_event bill_payment_has_failed)

  unfoldable pub handle_cancelled :
      List (WebhookPayload BillPaymentWebhookData) → String → String → Bool → Exec (Db o) (Unit {0})
  unfolding handle bill_payment_event
  handle_cancelled = handle (bill_payment_event bill_payment_was_cancelled)

  unfoldable pub handle_refused :
      List (WebhookPayload BillPaymentWebhookData) → String → String → Bool → Exec (Db o) (Unit {0})
  unfolding handle bill_payment_event
  handle_refused = handle (bill_payment_event bill_payment_was_refused)
