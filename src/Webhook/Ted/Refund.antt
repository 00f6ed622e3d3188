-- ===== src/Webhook/Ted/Refund.antt =====
-- A TED is given back (src/webhook-processor/services/ted-webhook.service.ts, `handleRefundReceived`
-- and `handleRefundCleared`).
pub mod Sequence
use api_payment.Common.{
  String, Bool, true, false, Option, none, some, List, truthy, or_option, ◌&?◌, str_eq as ◌==◌,
}
use api_payment.Common.Exec.{Exec, pure, lift, raise, not_found, ◌>>=◌, ◌>>◌, for_each}
use api_payment.Platform.{Row, TypeOrm}
use api_payment.Platform.Dates.{Date, DateParsers}
use api_payment.Platform.Financial.{FinancialProvider, PaymentSender, PaymentRecipient}
use api_payment.Database.{
  Db, find_one, insert, ted_refund_repository, ted_transfer_repository, ted_cash_in_repository,
}
use api_payment.Ted.Entities.{TedRefund, TedRefundStatus}
use api_payment.Transaction.Status.{TransactionType}
use api_payment.Webhook.Event.{value, ted_refund_was_received, ted_refund_was_cleared}
use api_payment.Webhook.Payload.{WebhookPayload}
use api_payment.Webhook.Ted.Data.{TedRefundData, TedParticipantData}
use api_payment.Webhook.Steps.{
  parse_financial_provider, parse_optional, is_text, transaction_for, amount_value, amount_currency,
  process_if_found, process_found, save_and_update, create_transaction, log_processed, if_found,
  if_valid,
}

-- `sender` of the new entity
refund_sender : Option TedParticipantData → PaymentSender
refund_sender s = record {
  name = s &? (λ p. p.name);
  trade_name = none;
  type = none;
  document_type = none;
  document_number = s &? (λ p. p.document);
  bank_name = none;
  bank_ispb = none;
  bank_compe = none;
  account_branch = none;
  account_number = none;
  account_type = none;
}

-- `recipient` of the new entity
refund_recipient : Option TedParticipantData → PaymentRecipient
refund_recipient r = record {
  name = r &? (λ p. p.name);
  document_type = none;
  document_number = r &? (λ p. p.document);
  type = none;
  bank_name = none;
  bank_ispb = none;
  bank_compe = none;
  account_branch = none;
  account_number = none;
  account_type = none;
  status = none;
  account_status = none;
}

-- The object that `tedRefundRepository.create` is given; it names no account.
unfoldable pub new_refund :
    WebhookPayload TedRefundData
    → FinancialProvider
    → (client_id : String) → (related_ted_transfer_id related_ted_cash_in_id : Option String)
    → Option Date
    → TedRefund
unfolding refund_sender refund_recipient
new_refund event provider client_id transfer_id cash_in_id created_at =
    let it = event.event_data in
    record {
      amount = amount_value it.amount;
      currency = amount_currency it.amount;
      description = it.description;
      provider_slug = provider;
      client_id = client_id;
      account_id = none;
      authentication_code = it.authentication_code;
      correlation_id = event.correlation_id;
      idempotency_key = event.idempotency_key;
      entity_id = some event.entity_id;
      status = TedRefundStatus.received;
      original_authentication_code = it.original_authentication_code;
      refund_reason = it.refund_reason;
      error_code = it.error_code;
      error_reason = it.error_reason;
      related_ted_transfer_id = transfer_id;
      related_ted_cash_in_id = cash_in_id;
      sender = refund_sender it.sender;
      recipient = refund_recipient it.recipient;
      provider_created_at = created_at;
    }

abbrev has_code : String → TedRefund → Bool
has_code code p = p.authentication_code == code

abbrev id_of : {E : Type 0} → Option (Row E) → Option String
id_of none = none
id_of (some row) = some row.id

module _ (o : TypeOrm) where
  -- The TED that was given back: the ids of the one sent and of the one received with its code.
  related : Option String → Exec (Db o) (Option String × Option String)
  related none = pure (none, none)
  related (some original) = do
    transfer ← find_one o (ted_transfer_repository o) (λ t. is_text original t.authentication_code)
    cash_in ← find_one o (ted_cash_in_repository o) (λ p. p.authentication_code == original)
    pure (id_of transfer, id_of cash_in)

module _ (o : TypeOrm) (d : DateParsers) where
  -- What follows the creation of the entity; the type of the transaction is that of a received TED.
  refund_saved : WebhookPayload TedRefundData → String → Row TedRefund → Exec (Db o) (Unit {0})
  refund_saved event client_id saved = do
    let it = event.event_data
    create_transaction o d
        (λ date.
          record (transaction_for it.authentication_code event TransactionType.ted_in
            ted_refund_was_received client_id date) {
              amount = amount_value it.amount;
              currency = some (amount_currency it.amount);
              description = it.description;
              ted_refund_id = some saved.id;
            })
        event
    log_processed o d it.authentication_code "TED_REFUND" saved.id ted_refund_was_received event
        client_id

  receive_refund :
      FinancialProvider → WebhookPayload TedRefundData → String → Exec (Db o) (Unit {0})
  unfolding related refund_saved
  receive_refund provider event client_id = do
    ids ← related o (truthy event.event_data.original_authentication_code)
    created_at ← lift (parse_optional d event.event_data.created_at)
    saved ←
        insert o (ted_refund_repository o)
          (new_refund event provider client_id ids.0 ids.1 created_at)
    refund_saved event client_id saved

  -- One round of the loop of `handleRefundReceived`.
  unfoldable pub refund_received :
      FinancialProvider → String → WebhookPayload TedRefundData → Exec (Db o) (Unit {0})
  unfolding receive_refund
  refund_received provider client_id event = do
    existing ← find_one o (ted_refund_repository o) (has_code event.event_data.authentication_code)
    if_found (λ existing. pure tt) (receive_refund provider event client_id) existing

  -- The key is looked at before the slug of the provider.
  unfoldable pub handle_refund_received :
      List (WebhookPayload TedRefundData)
      → (client_id provider_slug : String) → Bool
      → Exec (Db o) (Unit {0})
  unfolding refund_received
  handle_refund_received events client_id provider_slug valid_public_key =
      if_valid valid_public_key (do
        provider ← lift (parse_financial_provider provider_slug)
        for_each (refund_received provider client_id) events)

  abbrev cleared : TedRefund → TedRefund
  cleared p = record p { status = TedRefundStatus.cleared }

  clear_code : WebhookPayload TedRefundData → String → Option String → Exec (Db o) (Unit {0})
  clear_code event client_id none = pure tt
  clear_code event client_id (some code) =
      process_found o d (ted_refund_repository o) (has_code code) code ted_refund_was_cleared
        (λ row.
          save_and_update o d (ted_refund_repository o) (record row { fields = cleared row.fields })
            code ted_refund_was_cleared event.event_data.description event)
        "TED_REFUND" event client_id

  -- `data.authenticationCode || event.entityId`, if it is truthy
  abbrev pub cleared_code : WebhookPayload TedRefundData → Option String
  cleared_code event =
      truthy (or_option (some event.event_data.authentication_code) (some event.entity_id))

  -- One round of the loop of `handleRefundCleared`.
  unfoldable pub refund_cleared : String → WebhookPayload TedRefundData → Exec (Db o) (Unit {0})
  unfolding clear_code
  refund_cleared client_id event = clear_code event client_id (cleared_code event)

  unfoldable pub handle_refund_cleared :
      List (WebhookPayload TedRefundData)
      → (client_id provider_slug : String) → Bool
      → Exec (Db o) (Unit {0})
  unfolding refund_cleared
  handle_refund_cleared events client_id provider_slug valid_public_key =
      if_valid valid_public_key (do
        provider ← lift (parse_financial_provider provider_slug)
        for_each (refund_cleared client_id) events)
