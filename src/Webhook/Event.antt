-- ===== src/Webhook/Event.antt =====
-- The events of the webhooks (src/webhook-processor/enums/webhook-event.enum.ts) and their texts.
use Prim.Native.String.{String}
use api_payment.Common.{◌≡◌, Bool, true, List, [], ◌∷◌}
use api_payment.Common.Lists.{all, All, all-All}

pub data WebhookEvent : Type 0 where
  pix_cash_in_was_received pix_cash_in_was_cleared pix_cashout_was_completed : WebhookEvent
  pix_cashout_was_canceled pix_cashout_was_undone pix_refund_was_received : WebhookEvent
  pix_refund_was_cleared pix_qrcode_was_created boleto_was_registered : WebhookEvent
  boleto_cash_in_was_received boleto_cash_in_was_cleared boleto_was_cancelled : WebhookEvent
  bill_payment_was_received bill_payment_was_created bill_payment_was_confirmed : WebhookEvent
  bill_payment_has_failed bill_payment_was_cancelled bill_payment_was_refused : WebhookEvent
  ted_cash_out_was_approved ted_cash_out_was_done ted_cash_out_was_canceled : WebhookEvent
  ted_cash_out_was_reproved ted_cash_out_was_undone ted_cash_in_was_received : WebhookEvent
  ted_cash_in_was_cleared ted_refund_was_received ted_refund_was_cleared : WebhookEvent

-- The text of an event, as it stands in a payload and in the event log.
abbrev pub value : WebhookEvent → String
value pix_cash_in_was_received = "PIX_CASH_IN_WAS_RECEIVED"
value pix_cash_in_was_cleared = "PIX_CASH_IN_WAS_CLEARED"
value pix_cashout_was_completed = "PIX_CASHOUT_WAS_COMPLETED"
value pix_cashout_was_canceled = "PIX_CASHOUT_WAS_CANCELED"
value pix_cashout_was_undone = "PIX_CASHOUT_WAS_UNDONE"
value pix_refund_was_received = "PIX_REFUND_WAS_RECEIVED"
value pix_refund_was_cleared = "PIX_REFUND_WAS_CLEARED"
value pix_qrcode_was_created = "PIX_QRCODE_WAS_CREATED"
value boleto_was_registered = "BOLETO_WAS_REGISTERED"
value boleto_cash_in_was_received = "BOLETO_CASH_IN_WAS_RECEIVED"
value boleto_cash_in_was_cleared = "BOLETO_CASH_IN_WAS_CLEARED"
value boleto_was_cancelled = "BOLETO_WAS_CANCELLED"
value bill_payment_was_received = "BILL_PAYMENT_WAS_RECEIVED"
value bill_payment_was_created = "BILL_PAYMENT_WAS_CREATED"
value bill_payment_was_confirmed = "BILL_PAYMENT_WAS_CONFIRMED"
value bill_payment_has_failed = "BILL_PAYMENT_HAS_FAILED"
value bill_payment_was_cancelled = "BILL_PAYMENT_WAS_CANCELLED"
value bill_payment_was_refused = "BILL_PAYMENT_WAS_REFUSED"
value ted_cash_out_was_approved = "TED_CASH_OUT_WAS_APPROVED"
value ted_cash_out_was_done = "TED_CASH_OUT_WAS_DONE"
value ted_cash_out_was_canceled = "TED_CASH_OUT_WAS_CANCELED"
value ted_cash_out_was_reproved = "TED_CASH_OUT_WAS_REPROVED"
value ted_cash_out_was_undone = "TED_CASH_OUT_WAS_UNDONE"
value ted_cash_in_was_received = "TED_CASH_IN_WAS_RECEIVED"
value ted_cash_in_was_cleared = "TED_CASH_IN_WAS_CLEARED"
value ted_refund_was_received = "TED_REFUND_WAS_RECEIVED"
value ted_refund_was_cleared = "TED_REFUND_WAS_CLEARED"

-- Every event, for checks by evaluation.
abbrev pub events : List WebhookEvent
events =
    pix_cash_in_was_received ∷ pix_cash_in_was_cleared ∷ pix_cashout_was_completed
    ∷ pix_cashout_was_canceled ∷ pix_cashout_was_undone ∷ pix_refund_was_received
    ∷ pix_refund_was_cleared ∷ pix_qrcode_was_created ∷ boleto_was_registered
    ∷ boleto_cash_in_was_received ∷ boleto_cash_in_was_cleared ∷ boleto_was_cancelled
    ∷ bill_payment_was_received ∷ bill_payment_was_created ∷ bill_payment_was_confirmed
    ∷ bill_payment_has_failed ∷ bill_payment_was_cancelled ∷ bill_payment_was_refused
    ∷ ted_cash_out_was_approved ∷ ted_cash_out_was_done ∷ ted_cash_out_was_canceled
    ∷ ted_cash_out_was_reproved ∷ ted_cash_out_was_undone ∷ ted_cash_in_was_received
    ∷ ted_cash_in_was_cleared ∷ ted_refund_was_received ∷ ted_refund_was_cleared ∷ []

project : (P : WebhookEvent → Type 0) (e : WebhookEvent) → All P events → P e
project P pix_cash_in_was_received h = h.0
project P pix_cash_in_was_cleared h = h.1.0
project P pix_cashout_was_completed h = h.1.1.0
project P pix_cashout_was_canceled h = h.1.1.1.0
project P pix_cashout_was_undone h = h.1.1.1.1.0
project P pix_refund_was_received h = h.1.1.1.1.1.0
project P pix_refund_was_cleared h = h.1.1.1.1.1.1.0
project P pix_qrcode_was_created h = h.1.1.1.1.1.1.1.0
project P boleto_was_registered h = h.1.1.1.1.1.1.1.1.0
project P boleto_cash_in_was_received h = h.1.1.1.1.1.1.1.1.1.0
project P boleto_cash_in_was_cleared h = h.1.1.1.1.1.1.1.1.1.1.0
project P boleto_was_cancelled h = h.1.1.1.1.1.1.1.1.1.1.1.0
project P bill_payment_was_received h = h.1.1.1.1.1.1.1.1.1.1.1.1.0
project P bill_payment_was_created h = h.1.1.1.1.1.1.1.1.1.1.1.1.1.0
project P bill_payment_was_confirmed h = h.1.1.1.1.1.1.1.1.1.1.1.1.1.1.0
project P bill_payment_has_failed h = h.1.1.1.1.1.1.1.1.1.1.1.1.1.1.1.0
project P bill_payment_was_cancelled h = h.1.1.1.1.1.1.1.1.1.1.1.1.1.1.1.1.0
project P bill_payment_was_refused h = h.1.1.1.1.1.1.1.1.1.1.1.1.1.1.1.1.1.0
project P ted_cash_out_was_approved h = h.1.1.1.1.1.1.1.1.1.1.1.1.1.1.1.1.1.1.0
project P ted_cash_out_was_done h = h.1.1.1.1.1.1.1.1.1.1.1.1.1.1.1.1.1.1.1.0
project P ted_cash_out_was_canceled h = h.1.1.1.1.1.1.1.1.1.1.1.1.1.1.1.1.1.1.1.1.0
project P ted_cash_out_was_reproved h = h.1.1.1.1.1.1.1.1.1.1.1.1.1.1.1.1.1.1.1.1.1.0
project P ted_cash_out_was_undone h = h.1.1.1.1.1.1.1.1.1.1.1.1.1.1.1.1.1.1.1.1.1.1.0
project P ted_cash_in_was_received h = h.1.1.1.1.1.1.1.1.1.1.1.1.1.1.1.1.1.1.1.1.1.1.1.0
project P ted_cash_in_was_cleared h = h.1.1.1.1.1.1.1.1.1.1.1.1.1.1.1.1.1.1.1.1.1.1.1.1.0
project P ted_refund_was_received h = h.1.1.1.1.1.1.1.1.1.1.1.1.1.1.1.1.1.1.1.1.1.1.1.1.1.0
project P ted_refund_was_cleared h = h.1.1.1.1.1.1.1.1.1.1.1.1.1.1.1.1.1.1.1.1.1.1.1.1.1.1.0

-- What is true of each event on the list is true of every event.
pub for_all : (p : WebhookEvent → Bool) (e : WebhookEvent) → all p events ≡ true → p e ≡ true
for_all p e h = project (λ x. p x ≡ true) e (all-All p events h)

pub for_all_pairs :
    (p : WebhookEvent → WebhookEvent → Bool) (c i : WebhookEvent)
    → all (λ c. all (p c) events) events ≡ true
    → p c i ≡ true
for_all_pairs p c i h = for_all (p c) i (for_all (λ c. all (p c) events) c h)
