-- ===== src/Webhook/Ted/CashIn.antt =====
-- A TED is received and cleared (src/webhook-processor/services/ted-webhook.service.ts,
-- `handleCashInReceived` and `handleCashInCleared`).
pub mod Sequence
use api_payment.Common.{
  String, Bool, true, false, Option, none, some, List, truthy, or_option, ◌&?◌, str_eq as ◌==◌,
}
use api_payment.Common.Exec.{Exec, pure, lift, raise, not_found, ◌>>=◌, ◌>>◌, for_each}
use api_payment.Platform.{Row, TypeOrm}
use api_payment.Platform.Dates.{Date, DateParsers}
use api_payment.Platform.Financial.{FinancialProvider, PaymentSender, PaymentRecipient}
use api_payment.Database.{Db, find_one, insert, ted_cash_in_repository}
use api_payment.Account.{find_by_number}
use api_payment.Account.Entity.{Account}
use api_payment.Ted.Entities.{TedCashIn, TedCashInStatus}
use api_payment.Transaction.Status.{TransactionType}
use api_payment.Webhook.Event.{ted_cash_in_was_received, ted_cash_in_was_cleared}
use api_payment.Webhook.Payload.{WebhookPayload}
use api_payment.Webhook.Ted.Data.{TedCashInData, TedParticipantData}
use api_payment.Webhook.Steps.{
  parse_financial_provider, parse_optional, transaction_for, amount_value, amount_currency,
  process_if_found, save_and_update, entity_missing, create_transaction, log_processed, if_found,
  if_valid,
}

-- `sender` of the new entity
sender_of : Option TedParticipantData → PaymentSender
sender_of s = record {
  name = s &? (λ p. p.name);
  trade_name = none;
  type = none;
  document_type = none;
  document_number = s &? (λ p. p.document);
  bank_name = s &? (λ p. p.account) &? (λ a. a.bank) &? (λ b. b.name);
  bank_ispb = s &? (λ p. p.account) &? (λ a. a.bank) &? (λ b. b.ispb);
  bank_compe = s &? (λ p. p.account) &? (λ a. a.bank) &? (λ b. b.compe);
  account_branch = s &? (λ p. p.account) &? (λ a. a.branch);
  account_number = s &? (λ p. p.account) &? (λ a. a.number);
  account_type = none;
}

-- `recipient` of the new entity
recipient_of : Option TedParticipantData → PaymentRecipient
recipient_of r = record {
  name = r &? (λ p. p.name);
  document_type = none;
  document_number = r &? (λ p. p.document);
  type = none;
  bank_name = none;
  bank_ispb = none;
  bank_compe = none;
  account_branch = r &? (λ p. p.account) &? (λ a. a.branch);
  account_number = r &? (λ p. p.account) &? (λ a. a.number);
  account_type = none;
  status = none;
  account_status = none;
}

-- The object that `tedCashInRepository.create` is given.
unfoldable pub new_cash_in :
    WebhookPayload TedCashInData → FinancialProvider → Row Account → Option Date → TedCashIn
unfolding sender_of recipient_of
new_cash_in event provider account created_at =
    let it = event.event_data in
    record {
      amount = amount_value it.amount;
      currency = amount_currency it.amount;
      description = it.description;
      provider_slug = provider;
      client_id = account.fields.client_id;
      account_id = some account.id;
      authentication_code = it.authentication_code;
      correlation_id = event.correlation_id;
      idempotency_key = event.idempotency_key;
      entity_id = some event.entity_id;
      status = TedCashInStatus.received;
      channel = it.channel;
      sender = sender_of it.sender;
      recipient = recipient_of it.recipient;
      provider_created_at = created_at;
    }

abbrev has_code : String → TedCashIn → Bool
has_code code p = p.authentication_code == code

-- `data.recipient?.account?.number`, if it is truthy
abbrev pub number_of : TedCashInData → Option String
number_of it = truthy (it.recipient &? (λ r. r.account) &? (λ a. a.number))

module _ (o : TypeOrm) (d : DateParsers) where
  -- What follows the creation of the entity.
  receive_saved :
      WebhookPayload TedCashInData → Row Account → Row TedCashIn → Exec (Db o) (Unit {0})
  receive_saved event account saved = do
    let it = event.event_data
    create_transaction o d
        (λ date.
          record (transaction_for it.authentication_code event TransactionType.ted_in
            ted_cash_in_was_received account.fields.client_id date) {
              amount = amount_value it.amount;
              currency = some (amount_currency it.amount);
              description = it.description;
              account_id = some account.id;
              ted_cash_in_id = some saved.id;
            })
        event
    log_processed o d it.authentication_code "TED_CASH_IN" saved.id ted_cash_in_was_received event
        account.fields.client_id

  receive :
      FinancialProvider
      → WebhookPayload TedCashInData
      → Option (Row Account)
      → Exec (Db o) (Unit {0})
  unfolding receive_saved
  receive provider event none = pure tt
  receive provider event (some account) = do
    created_at ← lift (parse_optional d event.event_data.created_at)
    saved ← insert o (ted_cash_in_repository o) (new_cash_in event provider account created_at)
    receive_saved event account saved

  receive_for :
      FinancialProvider → WebhookPayload TedCashInData → Option String → Exec (Db o) (Unit {0})
  unfolding receive
  receive_for provider event none = pure tt
  receive_for provider event (some number) = do
    account ← find_by_number o number
    receive provider event account

  -- One round of the loop of `handleCashInReceived`.
  unfoldable pub cash_in_received :
      FinancialProvider → WebhookPayload TedCashInData → Exec (Db o) (Unit {0})
  unfolding receive_for
  cash_in_received provider event = do
    existing ← find_one o (ted_cash_in_repository o) (has_code event.event_data.authentication_code)
    if_found (λ existing. pure tt) (receive_for provider event (number_of event.event_data))
        existing

  -- The key is looked at before the slug of the provider.
  unfoldable pub handle_cash_in_received :
      List (WebhookPayload TedCashInData)
      → (client_id provider_slug : String) → Bool
      → Exec (Db o) (Unit {0})
  unfolding cash_in_received
  handle_cash_in_received events client_id provider_slug valid_public_key =
      if_valid valid_public_key (do
        provider ← lift (parse_financial_provider provider_slug)
        for_each (cash_in_received provider) events)

  abbrev cleared : TedCashIn → TedCashIn
  cleared p = record p { status = TedCashInStatus.cleared }

  clear_code : WebhookPayload TedCashInData → String → Option String → Exec (Db o) (Unit {0})
  clear_code event client_id none = pure tt
  clear_code event client_id (some code) =
      process_if_found o d (ted_cash_in_repository o) (has_code code) code ted_cash_in_was_cleared
        (λ row.
          save_and_update o d (ted_cash_in_repository o)
            (record row { fields = cleared row.fields }) code ted_cash_in_was_cleared
            event.event_data.description event)
        "TED_CASH_IN" event client_id
        (entity_missing o code ted_cash_in_was_cleared (number_of event.event_data))

  -- `data.authenticationCode || event.entityId`, if it is truthy
  abbrev pub cleared_code : WebhookPayload TedCashInData → Option String
  cleared_code event =
      truthy (or_option (some event.event_data.authentication_code) (some event.entity_id))

  -- One round of the loop of `handleCashInCleared`.
  unfoldable pub cash_in_cleared : String → WebhookPayload TedCashInData → Exec (Db o) (Unit {0})
  unfolding clear_code
  cash_in_cleared client_id event = clear_code event client_id (cleared_code event)

  unfoldable pub handle_cash_in_cleared :
      List (WebhookPayload TedCashInData)
      → (client_id provider_slug : String) → Bool
      → Exec (Db o) (Unit {0})
  unfolding cash_in_cleared
  handle_cash_in_cleared events client_id provider_slug valid_public_key =
      if_valid valid_public_key (do
        provider ← lift (parse_financial_provider provider_slug)
        for_each (cash_in_cleared client_id) events)
