-- ===== src/Webhook/Pix/CashIn.antt =====
-- A PIX is received and cleared (src/webhook-processor/services/pix-webhook.service.ts,
-- `handleCashInReceived` and `handleCashInCleared`).
pub mod Received
pub mod Cleared
use api_payment.Common.{
  String, Bool, true, false, ◌&&◌, ◌||◌, Option, none, some, List, truthy, or_option, ◌&?◌,
  str_eq as ◌==◌, if◌then◌else◌,
}
use api_payment.Common.Exec.{Exec, pure, lift, ◌>>=◌, ◌>>◌, for_each}
use api_payment.Platform.{Row, TypeOrm}
use api_payment.Platform.Dates.{Date, DateParsers}
use api_payment.Platform.Financial.{FinancialProvider, PaymentSender, PaymentRecipient}
use api_payment.Database.{
  Db, find_one, insert, update, pix_cash_in_repository, pix_qr_code_repository,
}
use api_payment.Account.{find_by_number}
use api_payment.Account.Entity.{Account}
use api_payment.Pix.Entities.{PixCashIn, PixCashInStatus, PixQrCode, PixQrCodeStatus, paid}
use api_payment.Transaction.Status.{TransactionType}
use api_payment.Webhook.Event.{pix_cash_in_was_received, pix_cash_in_was_cleared}
use api_payment.Webhook.Payload.{WebhookPayload, ParticipantData}
use api_payment.Webhook.Pix.Data.{PixCashInReceivedData, PixCashInClearedData}
use api_payment.Webhook.Steps.{
  parse_financial_provider, parse_optional, account_number, transaction_for, amount_value,
  amount_currency, is_text, process_if_found, save_and_update, entity_missing, create_transaction,
  log_processed, if_found, if_valid,
}

-- `sender` of the new entity
sender_of : Option ParticipantData → PaymentSender
sender_of s = record {
  name = s &? (λ p. p.name);
  trade_name = none;
  type = s &? (λ p. p.type);
  document_type = s &? (λ p. p.document) &? (λ x. x.type);
  document_number = s &? (λ p. p.document) &? (λ x. x.value);
  bank_name = s &? (λ p. p.account) &? (λ a. a.bank) &? (λ b. b.name);
  bank_ispb = s &? (λ p. p.account) &? (λ a. a.bank) &? (λ b. b.ispb);
  bank_compe = none;
  account_branch = s &? (λ p. p.account) &? (λ a. a.branch);
  account_number = s &? (λ p. p.account) &? (λ a. a.number);
  account_type = s &? (λ p. p.account) &? (λ a. a.type);
}

-- `recipient` of the new entity
recipient_of : Option ParticipantData → PaymentRecipient
recipient_of r = record {
  name = r &? (λ p. p.name);
  document_type = r &? (λ p. p.document) &? (λ x. x.type);
  document_number = r &? (λ p. p.document) &? (λ x. x.value);
  type = r &? (λ p. p.type);
  bank_name = none;
  bank_ispb = r &? (λ p. p.account) &? (λ a. a.bank) &? (λ b. b.ispb);
  bank_compe = none;
  account_branch = r &? (λ p. p.account) &? (λ a. a.branch);
  account_number = r &? (λ p. p.account) &? (λ a. a.number);
  account_type = r &? (λ p. p.account) &? (λ a. a.type);
  status = none;
  account_status = none;
}

-- The object that `pixCashInRepository.create` is given.
unfoldable pub new_cash_in :
    WebhookPayload PixCashInReceivedData → FinancialProvider → Row Account → Option Date → PixCashIn
unfolding sender_of recipient_of
new_cash_in event provider account created_at =
    let it = event.event_data in
    record {
      amount = amount_value it.amount;
      currency = amount_currency it.amount;
      description = it.description;
      provider_slug = provider;
      client_id = account.fields.client_id;
      account_id = some account.id;
      authentication_code = it.authentication_code;
      correlation_id = event.correlation_id;
      idempotency_key = event.idempotency_key;
      entity_id = some event.entity_id;
      status = PixCashInStatus.received;
      end_to_end_id = it.channel &? (λ c. c.end2_end_id);
      initialization_type = it.channel &? (λ c. c.pix_initialization_type);
      receiver_reconciliation_id = it.channel &? (λ c. c.receiver_reconciliation_id);
      payment_priority = it.channel &? (λ c. c.pix_payment_priority);
      payment_priority_type = it.channel &? (λ c. c.pix_payment_priority_type);
      payment_purpose = it.channel &? (λ c. c.pix_payment_purpose);
      addressing_key_value = it.addressing_key &? (λ k. k.value);
      addressing_key_type = it.addressing_key &? (λ k. k.type);
      sender = sender_of (it.channel &? (λ c. c.sender));
      recipient = recipient_of it.recipient;
      provider_created_at = created_at;
    }

-- `qrCodeTypes.includes(type)`
abbrev is_qr_code_type : String → Bool
is_qr_code_type type = type == "StaticQrCode" || type == "DynamicQrCode"

abbrev is_paid : PixQrCodeStatus → Bool
is_paid paid = true
is_paid _ = false

abbrev has_code : String → PixCashIn → Bool
has_code code p = p.authentication_code == code

module _ (o : TypeOrm) where
  mark_paid : Option (Row PixQrCode) → Exec (Db o) (Option String)
  mark_paid none = pure none
  mark_paid (some row) = if is_paid row.fields.status then pure (some row.id) else (do
    saved ←
        update o (pix_qr_code_repository o)
          (record row { fields = record row.fields { status = paid } })
    pure (some row.id))

  qr_code_of : Option String → Option String → Exec (Db o) (Option String)
  unfolding mark_paid
  qr_code_of none type = pure none
  qr_code_of (some conciliation_id) none = pure none
  qr_code_of (some conciliation_id) (some type) =
      if is_qr_code_type type
      then (do
        row ← find_one o (pix_qr_code_repository o) (λ q. is_text conciliation_id q.conciliation_id)
        mark_paid row)
      else pure none

  -- The QR code that was paid, if the PIX came by one, is marked so; its id is given back.
  unfoldable pub pay_qr_code : PixCashInReceivedData → Exec (Db o) (Option String)
  unfolding qr_code_of
  pay_qr_code it =
      qr_code_of (truthy (it.channel &? (λ c. c.receiver_reconciliation_id)))
        (truthy (it.channel &? (λ c. c.pix_initialization_type)))

module _ (o : TypeOrm) (d : DateParsers) where
  -- What follows the creation of the entity.
  receive_saved :
      WebhookPayload PixCashInReceivedData → Row Account → Row PixCashIn → Exec (Db o) (Unit {0})
  receive_saved event account saved = do
    let it = event.event_data
    pix_qr_code_id ← pay_qr_code o it
    create_transaction o d
        (λ date.
          record (transaction_for it.authentication_code event TransactionType.pix_cash_in
            pix_cash_in_was_received account.fields.client_id date) {
              amount = amount_value it.amount;
              currency = some (amount_currency it.amount);
              description = it.description;
              account_id = some account.id;
              pix_cash_in_id = some saved.id;
              pix_qr_code_id = pix_qr_code_id;
            })
        event
    log_processed o d it.authentication_code "PIX_CASH_IN" saved.id pix_cash_in_was_received event
        account.fields.client_id

  receive :
      FinancialProvider
      → WebhookPayload PixCashInReceivedData
      → Option (Row Account)
      → Exec (Db o) (Unit {0})
  unfolding receive_saved
  receive provider event none = pure tt
  receive provider event (some account) = do
    created_at ← lift (parse_optional d event.event_data.created_at)
    saved ← insert o (pix_cash_in_repository o) (new_cash_in event provider account created_at)
    receive_saved event account saved

  receive_for :
      FinancialProvider
      → WebhookPayload PixCashInReceivedData
      → Option String
      → Exec (Db o) (Unit {0})
  unfolding receive
  receive_for provider event none = pure tt
  receive_for provider event (some number) = do
    account ← find_by_number o number
    receive provider event account

  -- One round of the loop of `handleCashInReceived`.
  unfoldable pub cash_in_received :
      FinancialProvider → WebhookPayload PixCashInReceivedData → Exec (Db o) (Unit {0})
  unfolding receive_for
  cash_in_received provider event = do
    existing ← find_one o (pix_cash_in_repository o) (has_code event.event_data.authentication_code)
    if_found (λ existing. pure tt)
        (receive_for provider event (account_number event.event_data.recipient)) existing

  unfoldable pub handle_cash_in_received :
      List (WebhookPayload PixCashInReceivedData)
      → (client_id provider_slug : String) → Bool
      → Exec (Db o) (Unit {0})
  unfolding cash_in_received
  handle_cash_in_received events client_id provider_slug valid_public_key = do
    provider ← lift (parse_financial_provider provider_slug)
    if_valid valid_public_key (for_each (cash_in_received provider) events)

  abbrev cleared : PixCashIn → PixCashIn
  cleared p = record p { status = PixCashInStatus.cleared }

  clear_code : WebhookPayload PixCashInClearedData → String → Option String → Exec (Db o) (Unit {0})
  clear_code event client_id none = pure tt
  clear_code event client_id (some code) =
      process_if_found o d (pix_cash_in_repository o) (has_code code) code pix_cash_in_was_cleared
        (λ row.
          save_and_update o d (pix_cash_in_repository o)
            (record row { fields = cleared row.fields }) code pix_cash_in_was_cleared
            event.event_data.description event)
        "PIX_CASH_IN" event client_id
        (entity_missing o code pix_cash_in_was_cleared (account_number event.event_data.recipient))

  -- `data.authenticationCode || event.entityId`, if it is truthy
  abbrev pub cleared_code : WebhookPayload PixCashInClearedData → Option String
  cleared_code event =
      truthy (or_option event.event_data.authentication_code (some event.entity_id))

  -- One round of the loop of `handleCashInCleared`.
  unfoldable pub cash_in_cleared :
      String → WebhookPayload PixCashInClearedData → Exec (Db o) (Unit {0})
  unfolding clear_code
  cash_in_cleared client_id event = clear_code event client_id (cleared_code event)

  unfoldable pub handle_cash_in_cleared :
      List (WebhookPayload PixCashInClearedData)
      → (client_id provider_slug : String) → Bool
      → Exec (Db o) (Unit {0})
  unfolding cash_in_cleared
  handle_cash_in_cleared events client_id provider_slug valid_public_key = do
    provider ← lift (parse_financial_provider provider_slug)
    if_valid valid_public_key (for_each (cash_in_cleared client_id) events)
