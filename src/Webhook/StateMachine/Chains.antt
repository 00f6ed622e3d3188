-- ===== src/Webhook/StateMachine/Chains.antt =====
-- Histories of one payment: sequences of events that the check lets through one after another.
use api_payment.Common.{
  ℕ, zero, suc, ◌+◌, ◌≤◌, ◌<◌, ◌≡◌, refl, sym, ◌∙◌, true, false, Option, none, some, String, List,
  [], ◌∷◌, inl, inr, arith, Bool-cases,
}
use api_payment.Common.Lists.{length, All}
use api_payment.Webhook.Event.{
  WebhookEvent, value, pix_cash_in_was_received, pix_cash_in_was_cleared, pix_cashout_was_canceled,
  pix_cashout_was_undone, pix_refund_was_received, pix_refund_was_cleared, boleto_was_registered,
  boleto_cash_in_was_received, boleto_cash_in_was_cleared, boleto_was_cancelled,
  bill_payment_was_received, bill_payment_was_created, bill_payment_was_confirmed,
  bill_payment_has_failed, bill_payment_was_cancelled, bill_payment_was_refused,
  ted_cash_out_was_approved, ted_cash_out_was_done, ted_cash_out_was_canceled,
  ted_cash_out_was_undone, ted_cash_in_was_received, ted_cash_in_was_cleared,
  ted_refund_was_received, ted_refund_was_cleared,
}
use api_payment.Webhook.StateMachine.{is_terminal_event, can_process_webhook}
use api_payment.Webhook.StateMachine.Edges.{
  Flow, flow_of, follows, opens, closes, rank, can_process-follows, can_process-opens,
  is_terminal-closes, follows-flow_of, follows-rank,
}

-- The event that a payment is at, as the log gives it to the check.
abbrev pub current : Option WebhookEvent → Option String
current none = none
current (some e) = some (value e)

-- Every event of the list is let through after the one before it.
abbrev pub IsAccepted : Option WebhookEvent → List WebhookEvent → Type 0
IsAccepted c [] = Unit
IsAccepted c (e ∷ es) =
    ((can_process_webhook (current c) (value e)).can_process ≡ true) × IsAccepted (some e) es

rank_bounded : (e : WebhookEvent) → rank e ≤ 3
rank_bounded pix_cash_in_was_received = omega arith
rank_bounded _ = omega arith

accepted-follows :
    (c e : WebhookEvent)
    → (can_process_webhook (some (value c)) (value e)).can_process ≡ true
    → follows c e ≡ true
accepted-follows c e h = rw (← can_process-follows c e) h

pub length_after :
    (c : WebhookEvent) (es : List WebhookEvent) → IsAccepted (some c) es → rank c + length es ≤ 3
length_after c [] h = omega (arith, rank_bounded c)
length_after c (e ∷ es) h =
    omega (arith, follows-rank c e (accepted-follows c e h.0), length_after e es h.1)

-- A list of events of which the first is let through with no event before it, and each other one
-- after the one before it, has at most four.
pub accepted-length : (es : List WebhookEvent) → IsAccepted none es → length es ≤ 4
accepted-length [] h = omega arith
accepted-length (e ∷ es) h = omega (arith, length_after e es h.1)

same_flow_after :
    (f : Flow) (c : WebhookEvent) (es : List WebhookEvent)
    → flow_of c ≡ f
    → IsAccepted (some c) es
    → All (λ e. flow_of e ≡ f) es
same_flow_after f c [] at h = tt
same_flow_after f c (e ∷ es) at h =
    let same = sym (follows-flow_of c e (accepted-follows c e h.0)) ∙ at in
    (same, same_flow_after f e es same h.1)

later_after :
    (n : ℕ) (c : WebhookEvent) (es : List WebhookEvent)
    → n ≤ rank c
    → IsAccepted (some c) es
    → All (λ e. n < rank e) es
later_after n c [] b h = tt
later_after n c (e ∷ es) b h =
    let up = follows-rank c e (accepted-follows c e h.0) in
    (omega arith, later_after n e es (omega arith) h.1)

-- The first event of such a list opens a flow; every later event belongs to the same flow and stands
-- strictly further along it than the first.
pub accepted-flow_of :
    (e : WebhookEvent) (es : List WebhookEvent)
    → IsAccepted none (e ∷ es)
    → (opens e ≡ true) × All (λ x. flow_of x ≡ flow_of e) es × All (λ x. rank e < rank x) es
accepted-flow_of e es h = (
  rw (← can_process-opens e) h.0,
  same_flow_after (flow_of e) e es refl h.1,
  later_after (rank e) e es (omega arith) h.1,
)

-- What is left to receive until a terminal event, chosen for each event that is not terminal.
abbrev next_event : WebhookEvent → WebhookEvent
next_event pix_cash_in_was_received = pix_cash_in_was_cleared
next_event pix_cashout_was_canceled = pix_cashout_was_undone
next_event pix_refund_was_received = pix_refund_was_cleared
next_event boleto_was_registered = boleto_was_cancelled
next_event boleto_cash_in_was_received = boleto_cash_in_was_cleared
next_event bill_payment_was_received = bill_payment_was_created
next_event bill_payment_was_created = bill_payment_was_confirmed
next_event bill_payment_was_confirmed = bill_payment_was_refused
next_event bill_payment_has_failed = bill_payment_was_cancelled
next_event ted_cash_out_was_approved = ted_cash_out_was_done
next_event ted_cash_out_was_canceled = ted_cash_out_was_undone
next_event ted_cash_in_was_received = ted_cash_in_was_cleared
next_event ted_refund_was_received = ted_refund_was_cleared
next_event e = e

next-follows : (e : WebhookEvent) → closes e ≡ false → follows e (next_event e) ≡ true
next-follows pix_cash_in_was_received h = refl
next-follows _ h = ground arith

next_rank : (e : WebhookEvent) → closes e ≡ false → rank e < rank (next_event e)
next_rank e h = follows-rank e (next_event e) (next-follows e h)

abbrev pub last_event : WebhookEvent → List WebhookEvent → WebhookEvent
last_event c [] = c
last_event c (e ∷ es) = last_event e es

complete :
    (k : ℕ) (c : WebhookEvent)
    → 3 < k + rank c
    → (es : List WebhookEvent) × IsAccepted (some c) es
      × (is_terminal_event (value (last_event c es)) ≡ true)
complete zero c b = absurd (omega (arith, rank_bounded c))
complete (suc k) c b = elim (Bool-cases (closes c)) [
  | inl end ↦ ([], tt, is_terminal-closes c ∙ end)
  | inr more ↦
      let up = next_rank c more in
      let (es, ok, done) = complete k (next_event c) (omega arith) in
      (next_event c ∷ es, (can_process-follows c (next_event c) ∙ next-follows c more, ok), done)
]

-- No payment is stuck: from every event there are events, each let through after the one before,
-- that end in a terminal one.
pub reaches_terminal :
    (c : WebhookEvent)
    → (es : List WebhookEvent) × IsAccepted (some c) es
      × (is_terminal_event (value (last_event c es)) ≡ true)
reaches_terminal c = complete 4 c (omega arith)
