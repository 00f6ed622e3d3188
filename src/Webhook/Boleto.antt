-- ===== src/Webhook/Boleto.antt =====
-- The boleto webhooks (src/webhook-processor/services/boleto-webhook.service.ts,
-- src/webhook-processor/interfaces/boleto-webhook.interface.ts).
pub mod Sequence
use api_payment.Common.{
  ℕ, String, Bool, true, false, Option, none, some, List, truthy, or_option, or_amount, ◌&?◌,
}
use api_payment.Common.Exec.{Exec, pure, lift, ◌>>=◌, ◌>>◌, for_each}
use api_payment.Platform.{Row, TypeOrm}
use api_payment.Platform.Dates.{Date, DateParsers}
use api_payment.Database.{Db, find_one, update, boleto_repository}
use api_payment.Boleto.Entities.{Boleto, BoletoStatus, registered, processing, paid, cancelled}
use api_payment.Transaction.Status.{TransactionType}
use api_payment.Transaction.Service.{update_status}
use api_payment.Webhook.Event.{
  WebhookEvent, value, boleto_was_registered, boleto_cash_in_was_received,
  boleto_cash_in_was_cleared, boleto_was_cancelled,
}
use api_payment.Webhook.Status.{map_webhook_event_to_transaction_status}
use api_payment.Webhook.Payload.{WebhookPayload, AmountData}
use api_payment.Webhook.Steps.{
  parse_financial_provider, is_text, transaction_for, amount_value, amount_currency,
  process_in_sequence, create_transaction, log_processed, if_found, if_valid,
}

pub record BoletoChannelData : Type 0 where
  pub our_number : Option String

pub record BoletoWebhookData : Type 0 where
  pub authentication_code : String
  pub barcode : Option String
  pub digitable : Option String
  pub amount : Option AmountData
  pub channel : Option BoletoChannelData
  pub reason : Option String
  pub created_at : Option String

-- `data.channel?.ourNumber`
abbrev pub our_number_of : BoletoWebhookData → Option String
our_number_of it = it.channel &? (λ c. c.our_number)

abbrev pub has_code : String → Boleto → Bool
has_code code b = is_text code b.authentication_code

abbrev pub has_our_number : String → Boleto → Bool
has_our_number our_number b = is_text our_number b.our_number

-- The assignments of each handler.
unfoldable pub registered_after : BoletoWebhookData → Boleto → Boleto
registered_after it b = record b {
  authentication_code = some it.authentication_code;
  barcode = or_option it.barcode b.barcode;
  digitable = or_option it.digitable b.digitable;
  our_number = or_option (our_number_of it) b.our_number;
  status = BoletoStatus.registered;
}

unfoldable pub received_after : BoletoWebhookData → Boleto → Boleto
received_after it b = record b { status = BoletoStatus.processing }

unfoldable pub cleared_after : BoletoWebhookData → Boleto → Boleto
cleared_after it b = record b { status = BoletoStatus.paid }

unfoldable pub cancelled_after : BoletoWebhookData → Boleto → Boleto
cancelled_after it b = record b { status = BoletoStatus.cancelled; cancel_reason = it.reason }

module _ (o : TypeOrm) where
  find_by_our_number : Option String → Option (Row Boleto) → Exec (Db o) (Option (Row Boleto))
  find_by_our_number our_number (some row) = pure (some row)
  find_by_our_number none none = pure none
  find_by_our_number (some our_number) none =
      find_one o (boleto_repository o) (has_our_number our_number)

  -- `findBoleto`
  unfoldable pub find_boleto : String → Option String → Exec (Db o) (Option (Row Boleto))
  unfolding find_by_our_number
  find_boleto code our_number = do
    row ← find_one o (boleto_repository o) (has_code code)
    find_by_our_number (truthy our_number) row

module _ (o : TypeOrm) (d : DateParsers) where
  -- A row of a boleto with what a handler assigns to it is saved.
  abbrev save_boleto :
      (BoletoWebhookData → Boleto → Boleto)
      → BoletoWebhookData
      → Row Boleto
      → Exec (Db o) (Row Boleto)
  save_boleto change it row =
      update o (boleto_repository o) (record row { fields = change it row.fields })

  register : WebhookPayload BoletoWebhookData → String → Row Boleto → Exec (Db o) (Unit {0})
  register event client_id row = do
    saved ← save_boleto registered_after event.event_data row
    log_processed o d event.event_data.authentication_code "BOLETO" row.id boleto_was_registered
        event client_id

  -- One round of the loop of `handleRegistered`; it asks for no sequence.
  unfoldable pub boleto_registered :
      String → WebhookPayload BoletoWebhookData → Exec (Db o) (Unit {0})
  unfolding register
  boleto_registered client_id event = do
    row ← find_boleto o event.event_data.authentication_code (our_number_of event.event_data)
    if_found (register event client_id) (pure tt) row

  -- What the handlers of the other events write between the check and the log.
  write_received : String → WebhookPayload BoletoWebhookData → Row Boleto → Exec (Db o) (Unit {0})
  write_received client_id event row = do
    let it = event.event_data
    saved ← save_boleto received_after it row
    create_transaction o d
        (λ date.
          record (transaction_for it.authentication_code event TransactionType.boleto_cash_in
            boleto_cash_in_was_received client_id date) {
              amount = or_amount (amount_value it.amount) row.fields.amount;
              currency = some (amount_currency it.amount);
              account_id = row.fields.account_id;
              boleto_id = some row.id;
            })
        event

  write_status :
      (BoletoWebhookData → Boleto → Boleto)
      → WebhookEvent
      → WebhookPayload BoletoWebhookData
      → Row Boleto
      → Exec (Db o) (Unit {0})
  write_status change name event row = do
    saved ← save_boleto change event.event_data row
    updated ←
        update_status o event.event_data.authentication_code
          (map_webhook_event_to_transaction_status (value name))
    pure tt

  -- One round of the loop of a handler that is bound to the sequence, with what it writes.
  abbrev boleto_event :
      WebhookEvent
      → (Row Boleto → Exec (Db o) (Unit {0}))
      → String
      → WebhookPayload BoletoWebhookData
      → Exec (Db o) (Unit {0})
  boleto_event name write client_id event = do
    row ← find_boleto o event.event_data.authentication_code (our_number_of event.event_data)
    if_found
        (λ row.
          process_in_sequence o d event.event_data.authentication_code name (write row) "BOLETO"
            row.id event client_id)
        (pure tt) row

  unfoldable pub boleto_received :
      String → WebhookPayload BoletoWebhookData → Exec (Db o) (Unit {0})
  unfolding write_received
  boleto_received client_id event =
      boleto_event boleto_cash_in_was_received (write_received client_id event) client_id event

  unfoldable pub boleto_cleared : String → WebhookPayload BoletoWebhookData → Exec (Db o) (Unit {0})
  unfolding write_status
  boleto_cleared client_id event =
      boleto_event boleto_cash_in_was_cleared
        (write_status cleared_after boleto_cash_in_was_cleared event) client_id event

  unfoldable pub boleto_cancelled :
      String → WebhookPayload BoletoWebhookData → Exec (Db o) (Unit {0})
  unfolding write_status
  boleto_cancelled client_id event =
      boleto_event boleto_was_cancelled (write_status cancelled_after boleto_was_cancelled event)
        client_id event

  abbrev handle :
      (String → WebhookPayload BoletoWebhookData → Exec (Db o) (Unit {0}))
      → List (WebhookPayload BoletoWebhookData)
      → (client_id provider_slug : String) → Bool
      → Exec (Db o) (Unit {0})
  handle round events client_id provider_slug valid_public_key = do
    provider ← lift (parse_financial_provider provider_slug)
    if_valid valid_public_key (for_each (round client_id) events)

  unfoldable pub handle_registered :
      List (WebhookPayload BoletoWebhookData) → String → String → Bool → Exec (Db o) (Unit {0})
  unfolding boleto_registered
  handle_registered = handle boleto_registered

  unfoldable pub handle_cash_in_received :
      List (WebhookPayload BoletoWebhookData) → String → String → Bool → Exec (Db o) (Unit {0})
  unfolding boleto_received
  handle_cash_in_received = handle boleto_received

  unfoldable pub handle_cash_in_cleared :
      List (WebhookPayload BoletoWebhookData) → String → String → Bool → Exec (Db o) (Unit {0})
  unfolding boleto_cleared
  handle_cash_in_cleared = handle boleto_cleared

  unfoldable pub handle_cancelled :
      List (WebhookPayload BoletoWebhookData) → String → String → Bool → Exec (Db o) (Unit {0})
  unfolding boleto_cancelled
  handle_cancelled = handle boleto_cancelled
