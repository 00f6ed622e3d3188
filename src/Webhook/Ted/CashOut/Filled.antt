-- ===== src/Webhook/Ted/CashOut/Filled.antt =====
-- What an event of a TED that was sent may not erase (`setIfPresent`).
use api_payment.Common.{String, ◌≡◌, refl, Bool, true, false, not, Option, none, some}
use api_payment.Platform.Dates.{Date}
use api_payment.Platform.Financial.{PaymentSender}
use api_payment.Ted.Entities.{TedTransfer, TedTransferStatus}
use api_payment.Webhook.Payload.{WebhookPayload}
use api_payment.Webhook.Ted.Data.{TedCashOutData, TedParticipantData}
use api_payment.Webhook.Ted.CashOut.{is_blank, set_if_present, sender_after, transfer_after}

-- A text that is there and is not blank.
abbrev pub is_filled : Option String → Bool
is_filled none = false
is_filled (some s) = not (is_blank s)

filled_or :
    (old : Option String) (s : String) (blank : Bool)
    → is_blank s ≡ blank
    → is_filled old ≡ true
    → is_filled (elim blank [ true ↦ old | false ↦ some s ]) ≡ true
filled_or old s true b h = h
filled_or old s false b h = rw b refl

set_if_present-filled :
    (old new : Option String) → is_filled old ≡ true → is_filled (set_if_present old new) ≡ true
unfolding set_if_present
set_if_present-filled old none h = h
set_if_present-filled old (some s) h = filled_or old s (is_blank s) refl h

-- The sender of a transfer that has one, whatever the event says of it.
abbrev pub name_of_sender : Option PaymentSender → Option String
name_of_sender none = none
name_of_sender (some s) = s.name

abbrev pub document_of_sender : Option PaymentSender → Option String
document_of_sender none = none
document_of_sender (some s) = s.document_number

sender_after-filled :
    (given : Option TedParticipantData) (s : Option PaymentSender)
    → (is_filled (name_of_sender s) ≡ true
        → is_filled (name_of_sender (sender_after given s)) ≡ true)
      × (is_filled (document_of_sender s) ≡ true
          → is_filled (document_of_sender (sender_after given s)) ≡ true)
unfolding sender_after
sender_after-filled none s = (λ h. h, λ h. h)
sender_after-filled (some p) none = (λ h. h, λ h. h)
sender_after-filled (some p) (some s) = (
  λ h. set_if_present-filled s.name p.name h,
  λ h. set_if_present-filled s.document_number p.document h,
)

-- An event of a TED that was sent never erases or blanks the correlation id, the idempotency key or
-- the channel of the transfer, nor the name and document of its sender, where they are filled.
pub transfer_after-filled :
    (status : TedTransferStatus) (event : WebhookPayload TedCashOutData)
    (payment_date created_at : Option Date) (t : TedTransfer)
    → let after = transfer_after status event payment_date created_at t in
      (is_filled t.correlation_id ≡ true → is_filled after.correlation_id ≡ true)
      × (is_filled t.idempotency_key ≡ true → is_filled after.idempotency_key ≡ true)
      × (is_filled t.channel ≡ true → is_filled after.channel ≡ true)
      × (is_filled (name_of_sender t.sender) ≡ true
          → is_filled (name_of_sender after.sender) ≡ true)
      × (is_filled (document_of_sender t.sender) ≡ true
          → is_filled (document_of_sender after.sender) ≡ true)
unfolding transfer_after
transfer_after-filled status event payment_date created_at t =
    let (name, document) = sender_after-filled event.event_data.sender t.sender in
    (
      λ h. set_if_present-filled t.correlation_id event.correlation_id h,
      λ h. set_if_present-filled t.idempotency_key event.idempotency_key h,
      λ h. set_if_present-filled t.channel event.event_data.channel h,
      name,
      document,
    )
