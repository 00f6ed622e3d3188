-- ===== src/Webhook/Ted/CashOut.antt =====
-- A TED that was sent is approved, done, canceled, reproved or undone
-- (src/webhook-processor/services/ted-webhook.service.ts, `setIfPresent`, `processCashOutEvent` and the
-- five handlers that call it).
pub mod Sequence
pub mod Filled
use Prim.Native.Char.{Char, code}
use api_payment.Common.{
  String, Bool, true, false, ◌&&◌, ◌||◌, Option, none, some, List, ◌&?◌, leb, ◌==◌,
}
use api_payment.Common.Exec.{Exec, lift, ◌>>=◌, ◌>>◌, for_each}
use api_payment.Platform.{Row, TypeOrm}
use api_payment.Platform.Dates.{Date, DateParsers}
use api_payment.Platform.Financial.{PaymentSender, PaymentRecipient}
use api_payment.Database.{Db, update, ted_transfer_repository}
use api_payment.Ted.Entities.{TedTransfer, TedTransferStatus}
use api_payment.Webhook.Event.{
  WebhookEvent, ted_cash_out_was_approved, ted_cash_out_was_done, ted_cash_out_was_canceled,
  ted_cash_out_was_reproved, ted_cash_out_was_undone,
}
use api_payment.Webhook.Payload.{WebhookPayload}
use api_payment.Webhook.Ted.Data.{TedCashOutData, TedParticipantData}
use api_payment.Webhook.Steps.{parse_optional, is_text, process_found, save_and_update, if_valid}

-- The white space and line ends that `trim` removes.
abbrev is_space : Char → Bool
is_space c =
    leb 9 (code c) && leb (code c) 13
    || code c == 32
    || code c == 160
    || code c == 5760
    || leb 8192 (code c) && leb (code c) 8202
    || code c == 8232
    || code c == 8233
    || code c == 8239
    || code c == 8287
    || code c == 12288
    || code c == 65279

-- `value.trim() === ''`
abbrev is_blank : String → Bool
is_blank String.[] = true
is_blank (String.◌∷◌ c s) = is_space c && is_blank s

-- `setIfPresent`, on texts: what the property holds then
unfoldable pub set_if_present : Option String → Option String → Option String
set_if_present old none = old
set_if_present old (some value) = elim (is_blank value) [ true ↦ old | false ↦ some value ]

-- The assignments under `if (data.sender && tedTransfer.sender)`.
sender_after : Option TedParticipantData → Option PaymentSender → Option PaymentSender
unfolding set_if_present
sender_after none s = s
sender_after (some p) none = none
sender_after (some p) (some s) = some (record s {
  document_number = set_if_present s.document_number p.document;
  name = set_if_present s.name p.name;
  account_branch = set_if_present s.account_branch (p.account &? (λ a. a.branch));
  account_number = set_if_present s.account_number (p.account &? (λ a. a.number));
  account_type = set_if_present s.account_type (p.account &? (λ a. a.type));
  bank_ispb = set_if_present s.bank_ispb (p.account &? (λ a. a.bank) &? (λ b. b.ispb));
  bank_name = set_if_present s.bank_name (p.account &? (λ a. a.bank) &? (λ b. b.name));
  bank_compe = set_if_present s.bank_compe (p.account &? (λ a. a.bank) &? (λ b. b.compe));
})

-- The assignments under `if (data.recipient && tedTransfer.recipient)`.
recipient_after : Option TedParticipantData → Option PaymentRecipient → Option PaymentRecipient
unfolding set_if_present
recipient_after none r = r
recipient_after (some p) none = none
recipient_after (some p) (some r) = some (record r {
  document_number = set_if_present r.document_number p.document;
  name = set_if_present r.name p.name;
  account_branch = set_if_present r.account_branch (p.account &? (λ a. a.branch));
  account_number = set_if_present r.account_number (p.account &? (λ a. a.number));
  account_type = set_if_present r.account_type (p.account &? (λ a. a.type));
  bank_ispb = set_if_present r.bank_ispb (p.account &? (λ a. a.bank) &? (λ b. b.ispb));
  bank_name = set_if_present r.bank_name (p.account &? (λ a. a.bank) &? (λ b. b.name));
  bank_compe = set_if_present r.bank_compe (p.account &? (λ a. a.bank) &? (λ b. b.compe));
})

abbrev date_or : Option Date → Option Date → Option Date
date_or none old = old
date_or (some date) old = some date

-- The assignments to the transfer, with the two dates of the event.
unfoldable pub transfer_after :
    TedTransferStatus
    → WebhookPayload TedCashOutData
    → Option Date
    → Option Date
    → TedTransfer
    → TedTransfer
unfolding sender_after recipient_after
transfer_after status event payment_date created_at t =
    let it = event.event_data in
    record t {
      status = status;
      correlation_id = set_if_present t.correlation_id event.correlation_id;
      idempotency_key = set_if_present t.idempotency_key event.idempotency_key;
      channel = set_if_present t.channel it.channel;
      payment_date = payment_date;
      refusal_reason = it.refusal_reason;
      provider_created_at = date_or created_at t.provider_created_at;
      sender = sender_after it.sender t.sender;
      recipient = recipient_after it.recipient t.recipient;
    }

abbrev has_code : String → TedTransfer → Bool
has_code code t = is_text code t.authentication_code

module _ (o : TypeOrm) (d : DateParsers) (status : TedTransferStatus) (name : WebhookEvent) where
  write_cash_out : WebhookPayload TedCashOutData → Row TedTransfer → Exec (Db o) (Unit {0})
  write_cash_out event row = do
    let it = event.event_data
    payment_date ← lift (parse_optional d it.payment_date)
    created_at ← lift (parse_optional d it.created_at)
    save_and_update o d (ted_transfer_repository o)
        (record row { fields = transfer_after status event payment_date created_at row.fields })
        it.authentication_code name it.description event

  -- One round of the loop of `processCashOutEvent`.
  unfoldable pub cash_out_event : String → WebhookPayload TedCashOutData → Exec (Db o) (Unit {0})
  unfolding write_cash_out
  cash_out_event client_id event =
      let code = event.event_data.authentication_code in
      process_found o d (ted_transfer_repository o) (has_code code) code name (write_cash_out event)
        "TED_TRANSFER" event client_id

  -- The slug of the provider is not read.
  unfoldable pub process_cash_out_event :
      List (WebhookPayload TedCashOutData)
      → (client_id provider_slug : String) → Bool
      → Exec (Db o) (Unit {0})
  unfolding cash_out_event
  process_cash_out_event events client_id provider_slug valid_public_key =
      if_valid valid_public_key (for_each (cash_out_event client_id) events)

module _ (o : TypeOrm) (d : DateParsers) (events : List (WebhookPayload TedCashOutData))
    (client_id provider_slug : String) (valid_public_key : Bool) where
  unfoldable pub handle_cash_out_approved : Exec (Db o) (Unit {0})
  unfolding process_cash_out_event
  handle_cash_out_approved =
      process_cash_out_event o d TedTransferStatus.approved ted_cash_out_was_approved events
        client_id provider_slug valid_public_key

  unfoldable pub handle_cash_out_done : Exec (Db o) (Unit {0})
  unfolding process_cash_out_event
  handle_cash_out_done =
      process_cash_out_event o d TedTransferStatus.done ted_cash_out_was_done events client_id
        provider_slug valid_public_key

  unfoldable pub handle_cash_out_canceled : Exec (Db o) (Unit {0})
  unfolding process_cash_out_event
  handle_cash_out_canceled =
      process_cash_out_event o d TedTransferStatus.canceled ted_cash_out_was_canceled events
        client_id provider_slug valid_public_key

  unfoldable pub handle_cash_out_reproved : Exec (Db o) (Unit {0})
  unfolding process_cash_out_event
  handle_cash_out_reproved =
      process_cash_out_event o d TedTransferStatus.reproved ted_cash_out_was_reproved events
        client_id provider_slug valid_public_key

  unfoldable pub handle_cash_out_undone : Exec (Db o) (Unit {0})
  unfolding process_cash_out_event
  handle_cash_out_undone =
      process_cash_out_event o d TedTransferStatus.undone ted_cash_out_was_undone events client_id
        provider_slug valid_public_key
