-- ===== src/Webhook/Status.antt =====
-- From the name of an event to the status of its transaction
-- (src/webhook-processor/helpers/transaction-status-mapper.helper.ts).
use api_payment.Common.{
  String, ◌≡◌, refl, ◌≢◌, Bool, true, false, not, ◌||◌, some, List, [], ◌∷◌, str_eq as ◌==◌,
  if◌then◌else◌, arith,
}
use api_payment.Transaction.Status.{
  TransactionStatus, pending, in_process, done, undone, canceled, failed, refund_pending, refunded,
  reproved, TransactionSemanticStatus, processing, get_semantic_status,
}
use api_payment.Webhook.Event.{
  WebhookEvent, value, for_all_pairs, pix_cash_in_was_received, pix_qrcode_was_created,
}
use api_payment.Webhook.StateMachine.{is_terminal_event, can_process_webhook}
use api_payment.Webhook.StateMachine.Edges.{follows, can_process-follows}

-- `eventStatusMap`
abbrev event_status_map : List (String × TransactionStatus)
event_status_map =
    ("PIX_CASH_IN_WAS_RECEIVED", in_process)
    ∷ ("PIX_CASH_IN_WAS_CLEARED", done)
    ∷ ("PIX_CASHOUT_WAS_COMPLETED", done)
    ∷ ("PIX_CASHOUT_WAS_CANCELED", canceled)
    ∷ ("PIX_CASHOUT_WAS_UNDONE", undone)
    ∷ ("PIX_REFUND_WAS_RECEIVED", refund_pending)
    ∷ ("PIX_REFUND_WAS_CLEARED", refunded)
    ∷ ("BOLETO_WAS_REGISTERED", pending)
    ∷ ("BOLETO_CASH_IN_WAS_RECEIVED", in_process)
    ∷ ("BOLETO_CASH_IN_WAS_CLEARED", done)
    ∷ ("BOLETO_WAS_CANCELLED", canceled)
    ∷ ("BILL_PAYMENT_WAS_RECEIVED", in_process)
    ∷ ("BILL_PAYMENT_WAS_CREATED", in_process)
    ∷ ("BILL_PAYMENT_WAS_CONFIRMED", done)
    ∷ ("BILL_PAYMENT_HAS_FAILED", failed)
    ∷ ("BILL_PAYMENT_WAS_CANCELLED", canceled)
    ∷ ("BILL_PAYMENT_WAS_REFUSED", failed)
    ∷ ("TED_CASH_OUT_WAS_APPROVED", in_process)
    ∷ ("TED_CASH_OUT_WAS_DONE", done)
    ∷ ("TED_CASH_OUT_WAS_CANCELED", canceled)
    ∷ ("TED_CASH_OUT_WAS_REPROVED", reproved)
    ∷ ("TED_CASH_OUT_WAS_UNDONE", undone)
    ∷ ("TED_CASH_IN_WAS_RECEIVED", in_process)
    ∷ ("TED_CASH_IN_WAS_CLEARED", done)
    ∷ ("TED_REFUND_WAS_RECEIVED", refund_pending)
    ∷ ("TED_REFUND_WAS_CLEARED", refunded)
    ∷ []

abbrev find_status : String → List (String × TransactionStatus) → TransactionStatus
find_status event [] = pending
find_status event ((name, status) ∷ rest) = if name == event then status else find_status event rest

-- `mapWebhookEventToTransactionStatus`
unfoldable pub map_webhook_event_to_transaction_status : String → TransactionStatus
map_webhook_event_to_transaction_status event = find_status event event_status_map

-- The status that a statement shows after an event.
abbrev pub shown_status : WebhookEvent → TransactionSemanticStatus
shown_status e = get_semantic_status (map_webhook_event_to_transaction_status (value e))

-- After a terminal event the transaction is no longer shown as being processed; the one exception
-- is the creation of a QR code, which has no transaction.
pub terminal_settles :
    (e : WebhookEvent)
    → is_terminal_event (value e) ≡ true
    → e ≢ pix_qrcode_was_created
    → shown_status e ≢ processing
unfolding is_terminal_event map_webhook_event_to_transaction_status get_semantic_status
terminal_settles pix_cash_in_was_received h n = ground arith
terminal_settles _ h n = ground arith

abbrev is_processing : TransactionSemanticStatus → Bool
is_processing processing = true
is_processing _ = false

-- No arrow of the diagram leads from a settled event to one that is being processed.
no_return : WebhookEvent → WebhookEvent → Bool
unfolding map_webhook_event_to_transaction_status get_semantic_status
no_return c e =
    not (follows c e) || is_processing (shown_status c) || not (is_processing (shown_status e))

no_return_holds : (c e : WebhookEvent) → no_return c e ≡ true
unfolding no_return
no_return_holds c e = for_all_pairs no_return c e refl

settled_of_no_return :
    (f : Bool) (s t : TransactionSemanticStatus)
    → (not f || is_processing s || not (is_processing t)) ≡ true
    → f ≡ true
    → s ≢ processing
    → t ≢ processing
settled_of_no_return f s t h k n = ground arith

-- Once a transaction is shown as settled, an event that the sequence check lets through never
-- takes it back to being processed.
pub settled_stays :
    (c e : WebhookEvent)
    → (can_process_webhook (some (value c)) (value e)).can_process ≡ true
    → shown_status c ≢ processing
    → shown_status e ≢ processing
unfolding no_return
settled_stays c e h =
    settled_of_no_return (follows c e) (shown_status c) (shown_status e) (no_return_holds c e)
      (rw (← can_process-follows c e) h)
