-- ===== src/Webhook/Pix/Refund.antt =====
-- A PIX is given back (src/webhook-processor/services/pix-webhook.service.ts, `handleRefundReceived`
-- and `handleRefundCleared`).
pub mod Sequence
use api_payment.Common.{
  String, Bool, true, false, Option, none, some, List, truthy, ◌&?◌, str_eq as ◌==◌, ◌&&◌, not,
  is_some, if◌then◌else◌,
}
use api_payment.Common.Exec.{Exec, pure, lift, ◌>>=◌, ◌>>◌, for_each}
use api_payment.Platform.{Row, TypeOrm}
use api_payment.Platform.Dates.{Date, DateParsers}
use api_payment.Platform.Financial.{FinancialProvider, PaymentSender, PaymentRecipient}
use api_payment.Database.{
  Db, find_one, insert, pix_refund_repository, pix_cash_in_repository, pix_transfer_repository,
}
use api_payment.Account.{find_by_number}
use api_payment.Account.Entity.{Account}
use api_payment.Pix.Entities.{PixRefund, PixRefundStatus}
use api_payment.Transaction.Status.{TransactionType}
use api_payment.Webhook.Event.{pix_refund_was_received, pix_refund_was_cleared}
use api_payment.Webhook.Payload.{WebhookPayload, ParticipantData}
use api_payment.Webhook.Pix.Data.{PixRefundData}
use api_payment.Webhook.Steps.{
  parse_financial_provider, parse_optional, account_number, transaction_for, amount_value,
  amount_currency, is_text, process_if_found, save_and_update, entity_missing, create_transaction,
  log_processed, if_found, if_valid,
}

-- `sender` of the new entity
refund_sender : Option ParticipantData → PaymentSender
refund_sender s = record {
  name = s &? (λ p. p.name);
  trade_name = none;
  type = s &? (λ p. p.type);
  document_type = s &? (λ p. p.document) &? (λ x. x.type);
  document_number = s &? (λ p. p.document) &? (λ x. x.value);
  bank_name = none;
  bank_ispb = none;
  bank_compe = none;
  account_branch = none;
  account_number = none;
  account_type = none;
}

-- `recipient` of the new entity
refund_recipient : Option ParticipantData → PaymentRecipient
refund_recipient r = record {
  name = none;
  document_type = r &? (λ p. p.document) &? (λ x. x.type);
  document_number = r &? (λ p. p.document) &? (λ x. x.value);
  type = r &? (λ p. p.type);
  bank_name = none;
  bank_ispb = none;
  bank_compe = none;
  account_branch = none;
  account_number = none;
  account_type = none;
  status = none;
  account_status = none;
}

-- The object that `pixRefundRepository.create` is given; it names no account.
unfoldable pub new_refund :
    WebhookPayload PixRefundData
    → FinancialProvider
    → (client_id : String) → (related_pix_cash_in_id related_pix_transfer_id : Option String)
    → Option Date
    → PixRefund
unfolding refund_sender refund_recipient
new_refund event provider client_id cash_in_id transfer_id created_at =
    let it = event.event_data in
    record {
      amount = amount_value it.amount;
      currency = amount_currency it.amount;
      description = it.description;
      provider_slug = provider;
      client_id = client_id;
      account_id = none;
      authentication_code = it.authentication_code;
      correlation_id = event.correlation_id;
      idempotency_key = event.idempotency_key;
      entity_id = some event.entity_id;
      status = PixRefundStatus.received;
      end_to_end_id = it.channel &? (λ c. c.end2_end_id);
      end_to_end_id_original = it.channel &? (λ c. c.end2_end_id_original);
      refund_reason = it.channel &? (λ c. c.refund_reason);
      error_code = it.channel &? (λ c. c.error_code);
      error_reason = it.channel &? (λ c. c.error_reason);
      related_pix_cash_in_id = cash_in_id;
      related_pix_transfer_id = transfer_id;
      sender = refund_sender (it.channel &? (λ c. c.sender));
      recipient = refund_recipient it.recipient;
      provider_created_at = created_at;
    }

abbrev has_code : String → PixRefund → Bool
has_code code p = p.authentication_code == code

abbrev id_of : {E : Type 0} → Option (Row E) → Option String
id_of none = none
id_of (some row) = some row.id

module _ (o : TypeOrm) where
  -- The PIX that was given back: the ids of the one received and of the one sent with its
  -- end-to-end id.
  related : Option String → Exec (Db o) (Option String × Option String)
  related none = pure (none, none)
  related (some original) = do
    cash_in ← find_one o (pix_cash_in_repository o) (λ p. is_text original p.end_to_end_id)
    transfer ← find_one o (pix_transfer_repository o) (λ p. is_text original p.end_to_end_id)
    pure (id_of cash_in, id_of transfer)

  ignored_if : Option (Row Account) → Bool
  ignored_if account = not (is_some account)

  -- An event without a related PIX is ignored if it names an account that is not ours.
  is_foreign : Option String × Option String → Option String → Exec (Db o) Bool
  unfolding ignored_if
  is_foreign (none, none) (some number) = do
    account ← find_by_number o number
    pure (ignored_if account)
  is_foreign _ _ = pure false

module _ (o : TypeOrm) (d : DateParsers) where
  -- What follows the creation of the entity.
  refund_saved : WebhookPayload PixRefundData → String → Row PixRefund → Exec (Db o) (Unit {0})
  refund_saved event client_id saved = do
    let it = event.event_data
    create_transaction o d
        (λ date.
          record (transaction_for it.authentication_code event TransactionType.pix_refund
            pix_refund_was_received client_id date) {
              amount = amount_value it.amount;
              currency = some (amount_currency it.amount);
              description = it.description;
              pix_refund_id = some saved.id;
            })
        event
    log_processed o d it.authentication_code "PIX_REFUND" saved.id pix_refund_was_received event
        client_id

  create_refund :
      FinancialProvider
      → WebhookPayload PixRefundData
      → String
      → Option String × Option String
      → Bool
      → Exec (Db o) (Unit {0})
  unfolding refund_saved
  create_refund provider event client_id ids true = pure tt
  create_refund provider event client_id ids false = do
    created_at ← lift (parse_optional d event.event_data.created_at)
    saved ←
        insert o (pix_refund_repository o)
          (new_refund event provider client_id ids.0 ids.1 created_at)
    refund_saved event client_id saved

  receive_refund :
      FinancialProvider → WebhookPayload PixRefundData → String → Exec (Db o) (Unit {0})
  unfolding create_refund related is_foreign
  receive_refund provider event client_id = do
    let it = event.event_data
    ids ← related o (truthy (it.channel &? (λ c. c.end2_end_id_original)))
    foreign ← is_foreign o ids (account_number it.recipient)
    create_refund provider event client_id ids foreign

  -- One round of the loop of `handleRefundReceived`.
  unfoldable pub refund_received :
      FinancialProvider → String → WebhookPayload PixRefundData → Exec (Db o) (Unit {0})
  unfolding receive_refund
  refund_received provider client_id event = do
    existing ← find_one o (pix_refund_repository o) (has_code event.event_data.authentication_code)
    if_found (λ existing. pure tt) (receive_refund provider event client_id) existing

  unfoldable pub handle_refund_received :
      List (WebhookPayload PixRefundData)
      → (client_id provider_slug : String) → Bool
      → Exec (Db o) (Unit {0})
  unfolding refund_received
  handle_refund_received events client_id provider_slug valid_public_key = do
    provider ← lift (parse_financial_provider provider_slug)
    if_valid valid_public_key (for_each (refund_received provider client_id) events)

  abbrev cleared : PixRefund → PixRefund
  cleared p = record p { status = PixRefundStatus.cleared }

  -- One round of the loop of `handleRefundCleared`.
  unfoldable pub refund_cleared : String → WebhookPayload PixRefundData → Exec (Db o) (Unit {0})
  refund_cleared client_id event =
      let code = event.event_data.authentication_code in
      process_if_found o d (pix_refund_repository o) (has_code code) code pix_refund_was_cleared
        (λ row.
          save_and_update o d (pix_refund_repository o) (record row { fields = cleared row.fields })
            code pix_refund_was_cleared event.event_data.description event)
        "PIX_REFUND" event client_id
        (entity_missing o code pix_refund_was_cleared (account_number event.event_data.recipient))

  unfoldable pub handle_refund_cleared :
      List (WebhookPayload PixRefundData)
      → (client_id provider_slug : String) → Bool
      → Exec (Db o) (Unit {0})
  unfolding refund_cleared
  handle_refund_cleared events client_id provider_slug valid_public_key = do
    provider ← lift (parse_financial_provider provider_slug)
    if_valid valid_public_key (for_each (refund_cleared client_id) events)
