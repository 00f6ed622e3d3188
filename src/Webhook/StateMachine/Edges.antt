-- ===== src/Webhook/StateMachine/Edges.antt =====
-- The diagram of the flows, drawn apart from the table of the source, and the theorems that the
-- sequence check follows it.
use api_payment.Common.{ℕ, ◌<◌, ◌≡◌, refl, Bool, true, false, not, none, some, arith}
use api_payment.Webhook.Event.{
  WebhookEvent, value, for_all_pairs, pix_cash_in_was_received, pix_cash_in_was_cleared,
  pix_cashout_was_completed, pix_cashout_was_canceled, pix_cashout_was_undone,
  pix_refund_was_received, pix_refund_was_cleared, pix_qrcode_was_created, boleto_was_registered,
  boleto_cash_in_was_received, boleto_cash_in_was_cleared, boleto_was_cancelled,
  bill_payment_was_received, bill_payment_was_created, bill_payment_was_confirmed,
  bill_payment_has_failed, bill_payment_was_cancelled, bill_payment_was_refused,
  ted_cash_out_was_approved, ted_cash_out_was_done, ted_cash_out_was_canceled,
  ted_cash_out_was_reproved, ted_cash_out_was_undone, ted_cash_in_was_received,
  ted_cash_in_was_cleared, ted_refund_was_received, ted_refund_was_cleared,
}
use api_payment.Webhook.StateMachine.{is_terminal_event, can_process_webhook}

-- One payment is followed through one of these.
pub data Flow : Type 0 where
  pix_cash_in pix_cash_out pix_refund pix_qr_code boleto bill_payment : Flow
  ted_cash_out ted_cash_in ted_refund : Flow

abbrev pub flow_of : WebhookEvent → Flow
flow_of pix_cash_in_was_received = Flow.pix_cash_in
flow_of pix_cash_in_was_cleared = Flow.pix_cash_in
flow_of pix_cashout_was_completed = Flow.pix_cash_out
flow_of pix_cashout_was_canceled = Flow.pix_cash_out
flow_of pix_cashout_was_undone = Flow.pix_cash_out
flow_of pix_refund_was_received = Flow.pix_refund
flow_of pix_refund_was_cleared = Flow.pix_refund
flow_of pix_qrcode_was_created = Flow.pix_qr_code
flow_of boleto_was_registered = Flow.boleto
flow_of boleto_cash_in_was_received = Flow.boleto
flow_of boleto_cash_in_was_cleared = Flow.boleto
flow_of boleto_was_cancelled = Flow.boleto
flow_of bill_payment_was_received = Flow.bill_payment
flow_of bill_payment_was_created = Flow.bill_payment
flow_of bill_payment_was_confirmed = Flow.bill_payment
flow_of bill_payment_has_failed = Flow.bill_payment
flow_of bill_payment_was_cancelled = Flow.bill_payment
flow_of bill_payment_was_refused = Flow.bill_payment
flow_of ted_cash_out_was_approved = Flow.ted_cash_out
flow_of ted_cash_out_was_done = Flow.ted_cash_out
flow_of ted_cash_out_was_canceled = Flow.ted_cash_out
flow_of ted_cash_out_was_reproved = Flow.ted_cash_out
flow_of ted_cash_out_was_undone = Flow.ted_cash_out
flow_of ted_cash_in_was_received = Flow.ted_cash_in
flow_of ted_cash_in_was_cleared = Flow.ted_cash_in
flow_of ted_refund_was_received = Flow.ted_refund
flow_of ted_refund_was_cleared = Flow.ted_refund

-- The arrows of the diagram.
abbrev pub follows : WebhookEvent → WebhookEvent → Bool
follows pix_cash_in_was_received pix_cash_in_was_cleared = true
follows pix_cashout_was_canceled pix_cashout_was_undone = true
follows pix_refund_was_received pix_refund_was_cleared = true
follows boleto_was_registered boleto_cash_in_was_received = true
follows boleto_cash_in_was_received boleto_cash_in_was_cleared = true
follows boleto_was_registered boleto_was_cancelled = true
follows boleto_cash_in_was_received boleto_was_cancelled = true
follows bill_payment_was_received bill_payment_was_created = true
follows bill_payment_was_created bill_payment_was_confirmed = true
follows bill_payment_was_received bill_payment_has_failed = true
follows bill_payment_was_created bill_payment_has_failed = true
follows bill_payment_has_failed bill_payment_was_cancelled = true
follows bill_payment_was_confirmed bill_payment_was_refused = true
follows ted_cash_out_was_approved ted_cash_out_was_done = true
follows ted_cash_out_was_approved ted_cash_out_was_canceled = true
follows ted_cash_out_was_canceled ted_cash_out_was_undone = true
follows ted_cash_in_was_received ted_cash_in_was_cleared = true
follows ted_refund_was_received ted_refund_was_cleared = true
follows _ _ = false

-- The events that open a flow.
abbrev pub opens : WebhookEvent → Bool
opens pix_cash_in_was_received = true
opens pix_cashout_was_completed = true
opens pix_cashout_was_canceled = true
opens pix_refund_was_received = true
opens pix_qrcode_was_created = true
opens boleto_was_registered = true
opens bill_payment_was_received = true
opens ted_cash_out_was_approved = true
opens ted_cash_out_was_reproved = true
opens ted_cash_in_was_received = true
opens ted_refund_was_received = true
opens _ = false

-- The events that close a flow.
abbrev pub closes : WebhookEvent → Bool
closes pix_cash_in_was_cleared = true
closes pix_cashout_was_completed = true
closes pix_cashout_was_undone = true
closes pix_refund_was_cleared = true
closes pix_qrcode_was_created = true
closes boleto_cash_in_was_cleared = true
closes boleto_was_cancelled = true
closes bill_payment_was_cancelled = true
closes bill_payment_was_refused = true
closes ted_cash_out_was_done = true
closes ted_cash_out_was_reproved = true
closes ted_cash_out_was_undone = true
closes ted_cash_in_was_cleared = true
closes ted_refund_was_cleared = true
closes _ = false

-- How many arrows at most lead to an event.
abbrev pub rank : WebhookEvent → ℕ
rank pix_cash_in_was_received = 0
rank pix_cash_in_was_cleared = 1
rank pix_cashout_was_completed = 0
rank pix_cashout_was_canceled = 0
rank pix_cashout_was_undone = 1
rank pix_refund_was_received = 0
rank pix_refund_was_cleared = 1
rank pix_qrcode_was_created = 0
rank boleto_was_registered = 0
rank boleto_cash_in_was_received = 1
rank boleto_cash_in_was_cleared = 2
rank boleto_was_cancelled = 2
rank bill_payment_was_received = 0
rank bill_payment_was_created = 1
rank bill_payment_was_confirmed = 2
rank bill_payment_has_failed = 2
rank bill_payment_was_cancelled = 3
rank bill_payment_was_refused = 3
rank ted_cash_out_was_approved = 0
rank ted_cash_out_was_done = 1
rank ted_cash_out_was_canceled = 1
rank ted_cash_out_was_reproved = 0
rank ted_cash_out_was_undone = 2
rank ted_cash_in_was_received = 0
rank ted_cash_in_was_cleared = 1
rank ted_refund_was_received = 0
rank ted_refund_was_cleared = 1

abbrev same : Bool → Bool → Bool
same true b = b
same false b = not b

same-eq : (a b : Bool) → same a b ≡ true → a ≡ b
same-eq a b h = ground arith

-- The check lets an event through after another exactly when the diagram has an arrow between
-- them.
pub can_process-follows :
    (c i : WebhookEvent)
    → (can_process_webhook (some (value c)) (value i)).can_process ≡ follows c i
unfolding can_process_webhook
can_process-follows c i = same-eq _ _ (
    for_all_pairs
      (λ c i. same (can_process_webhook (some (value c)) (value i)).can_process (follows c i)) c i
      refl)

-- With no event yet, the check lets exactly the events through that open a flow.
pub can_process-opens :
    (i : WebhookEvent) → (can_process_webhook none (value i)).can_process ≡ opens i
unfolding can_process_webhook
can_process-opens pix_cash_in_was_received = refl
can_process-opens _ = refl

-- The list of terminal events names exactly the events that close a flow.
pub is_terminal-closes : (e : WebhookEvent) → is_terminal_event (value e) ≡ closes e
unfolding is_terminal_event
is_terminal-closes pix_cash_in_was_received = refl
is_terminal-closes _ = refl

pub follows-flow_of : (c i : WebhookEvent) → follows c i ≡ true → flow_of c ≡ flow_of i
follows-flow_of pix_cash_in_was_received i h = ground arith
follows-flow_of _ i h = ground arith

pub follows-rank : (c i : WebhookEvent) → follows c i ≡ true → rank c < rank i
follows-rank pix_cash_in_was_received i h = ground arith
follows-rank _ i h = ground arith

-- Nothing follows an event that closes a flow.
pub closes-follows : (c i : WebhookEvent) → is_terminal_event (value c) ≡ true → follows c i ≡ false
unfolding is_terminal_event
closes-follows pix_cash_in_was_received i h = ground arith
closes-follows _ i h = ground arith
