-- ===== src/Webhook/BillPayment/Changes.antt =====
-- What the events assign to a bill payment
-- (src/webhook-processor/services/bill-payment-webhook.service.ts).
use api_payment.Common.{
  ℕ, zero, suc, String, Option, none, some, truthy, or_text, or_option, or_amount, ◌&?◌,
}
use api_payment.Platform.Dates.{Date}
use api_payment.Platform.Financial.{PaymentRecipient}
use api_payment.BillPayment.Entities.{BillPayment, BillPaymentStatus}
use api_payment.Webhook.Payload.{ParticipantData}
use api_payment.Webhook.Steps.{amount_value}
use api_payment.Common.Numbers.{text_of_number}
use api_payment.Webhook.BillPayment.Data.{BillPaymentWebhookData, digits_only}

-- `if (date) target = parseDate(date)`, once it is parsed
abbrev date_or : Option Date → Option Date → Option Date
date_or none old = old
date_or (some date) old = some date

-- `if (id) target = String(id)`
abbrev number_or : Option ℕ → Option String → Option String
number_or none old = old
number_or (some zero) old = old
number_or (some (suc n)) old = some (text_of_number (suc n))

-- `new PaymentRecipient()`
abbrev no_recipient : PaymentRecipient
no_recipient = record {
  name = none;
  document_type = none;
  document_number = none;
  type = none;
  bank_name = none;
  bank_ispb = none;
  bank_compe = none;
  account_branch = none;
  account_number = none;
  account_type = none;
  status = none;
  account_status = none;
}

abbrev with_document : (number type : Option String) → PaymentRecipient → PaymentRecipient
with_document none type r = r
with_document (some number) type r = record r {
  document_number = some (digits_only number);
  document_type = type;
}

abbrev stored_recipient : Option PaymentRecipient → PaymentRecipient
stored_recipient none = no_recipient
stored_recipient (some r) = r

-- The block under `if (data.recipient)`.
unfoldable pub recipient_after :
    Option ParticipantData → Option PaymentRecipient → Option PaymentRecipient
recipient_after none stored = stored
recipient_after (some p) stored =
    let r = stored_recipient stored in
    some (
      with_document (truthy (p.document &? (λ x. x.value))) (p.document &? (λ x. x.type))
        (record r { name = or_option p.name r.name }))

-- The assignments of `handleReceived`, with its three dates.
unfoldable pub received_after :
    BillPaymentWebhookData → Option Date → Option Date → Option Date → BillPayment → BillPayment
unfolding recipient_after
received_after it settle_date payment_date due_date b = record b {
  status = BillPaymentStatus.created;
  transaction_id = number_or it.transaction_id b.transaction_id;
  settle_date = date_or settle_date b.settle_date;
  payment_date = date_or payment_date b.payment_date;
  due_date = date_or due_date b.due_date;
  digitable = or_text it.digitable b.digitable;
  description = or_option it.description b.description;
  assignor = or_option it.assignor b.assignor;
  recipient = recipient_after it.recipient b.recipient;
  amount = or_amount (amount_value it.amount) b.amount;
  original_amount = or_amount (amount_value it.original_amount) b.original_amount;
  interest_amount =
      or_amount (amount_value (it.charges &? (λ c. c.interest_amount_calculated)))
        b.interest_amount;
  fine_amount =
      or_amount (amount_value (it.charges &? (λ c. c.fine_amount_calculated))) b.fine_amount;
  discount_amount =
      or_amount (amount_value (it.charges &? (λ c. c.discount_amount))) b.discount_amount;
}

-- The assignments of the other handlers.
unfoldable pub created_after : BillPaymentWebhookData → BillPayment → BillPayment
created_after it b = record b {
  status = BillPaymentStatus.created;
  confirmation_transaction_id =
      number_or it.confirmation_transaction_id b.confirmation_transaction_id;
}

unfoldable pub confirmed_after : Option Date → BillPayment → BillPayment
confirmed_after confirmed_at b = record b {
  status = BillPaymentStatus.confirmed;
  confirmed_at = date_or confirmed_at b.confirmed_at;
}

unfoldable pub failed_after : BillPaymentWebhookData → BillPayment → BillPayment
failed_after it b = record b {
  status = BillPaymentStatus.cancelled;
  error_code = it.error &? (λ e. some e.code);
  error_message = it.error &? (λ e. some e.message);
}

unfoldable pub cancelled_after : BillPaymentWebhookData → BillPayment → BillPayment
cancelled_after it b = record b { status = BillPaymentStatus.cancelled; cancel_reason = it.reason }

unfoldable pub refused_after : BillPaymentWebhookData → BillPayment → BillPayment
refused_after it b = record b { status = BillPaymentStatus.cancelled }
