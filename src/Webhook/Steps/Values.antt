-- ===== src/Webhook/Steps/Values.antt =====
-- What the handlers read of an event (src/webhook-processor/services,
-- src/webhook-processor/helpers/provider-slug.helper.ts).
use api_payment.Common.{
  ℕ, String, Bool, true, false, Option, none, some, truthy, or_text, ◌&?◌, str_eq as ◌==◌,
  if◌then◌else◌,
}
use api_payment.Common.Exec.{Exec, Result, ok, throw, invalid_provider, pure}
use api_payment.Platform.Dates.{Date, DateParsers, parse_date}
use api_payment.Platform.Financial.{FinancialProvider, hiperbanco}
use api_payment.Transaction.Service.{CreateTransactionFromWebhook}
use api_payment.Transaction.Status.{TransactionType}
use api_payment.Webhook.Event.{WebhookEvent, value}
use api_payment.Webhook.Status.{map_webhook_event_to_transaction_status}
use api_payment.Webhook.Payload.{AmountData, WebhookPayload, ParticipantData}

-- `parseFinancialProvider`
unfoldable pub parse_financial_provider : String → Result FinancialProvider
parse_financial_provider slug =
    if slug == "hiperbanco" then ok hiperbanco else throw (invalid_provider slug)

-- `s ? parseDate(s) : undefined`
abbrev parse_truthy : DateParsers → Option String → Result (Option Date)
parse_truthy d none = ok none
parse_truthy d (some s) = elim (parse_date d s) [ ok date ↦ ok (some date) | throw x ↦ throw x ]

unfoldable pub parse_optional : DateParsers → Option String → Result (Option Date)
parse_optional d s = parse_truthy d (truthy s)

-- `recipient?.account?.number`, if it is truthy
abbrev pub account_number : Option ParticipantData → Option String
account_number recipient = truthy (recipient &? (λ r. r.account) &? (λ a. a.number))

-- A transaction for an event, with the members that every call of `createFromWebhook` gives and none
-- of the others.
abbrev pub transaction_for :
    {T : Type 0}
    → String
    → WebhookPayload T
    → TransactionType
    → WebhookEvent
    → String
    → Date
    → CreateTransactionFromWebhook
transaction_for code event type name client_id date = record {
  authentication_code = code;
  correlation_id = event.correlation_id;
  idempotency_key = event.idempotency_key;
  entity_id = some event.entity_id;
  type = type;
  status = map_webhook_event_to_transaction_status (value name);
  amount = none;
  currency = none;
  description = none;
  account_id = none;
  client_id = client_id;
  provider_timestamp = some date;
  pix_cash_in_id = none;
  pix_transfer_id = none;
  pix_refund_id = none;
  pix_qr_code_id = none;
  boleto_id = none;
  bill_payment_id = none;
  ted_transfer_id = none;
  ted_cash_in_id = none;
  ted_refund_id = none;
}

-- `amount?.value`, and `amount?.currency || 'BRL'`
abbrev pub amount_value : Option AmountData → Option ℕ
amount_value amount = amount &? (λ a. some a.value)

abbrev pub amount_currency : Option AmountData → String
amount_currency amount = or_text (amount &? (λ a. a.currency)) "BRL"

-- `where: { column: s }`, on a column that may be null
abbrev pub is_text : String → Option String → Bool
is_text s none = false
is_text s (some t) = t == s

-- Without a valid public key a handler does nothing.
abbrev pub if_valid : {S : Type 0} → Bool → Exec S (Unit {0}) → Exec S (Unit {0})
if_valid true run = run
if_valid false run = pure tt
