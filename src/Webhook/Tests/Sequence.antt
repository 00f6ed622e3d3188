-- ===== src/Webhook/Tests/Sequence.antt =====
-- The sequence of events, the status of a transaction and the event log on examples.
use api_payment.Common.{◌≡◌, ◌⊎◌, ◌≢◌, refl, ◌≤◌, ◌<◌, ◌↔◌, true, false, none, some, List, [], ◌∷◌}
use api_payment.Common.Exec.{Result, throw, Exception, pure}
use api_payment.Common.Lists.{length, All, AnyOf}
use api_payment.Platform.{Row}
use api_payment.Platform.Memory.{memory, memory-IsLawful}
use api_payment.Database.{Db}
use api_payment.Transaction.Status.{
  TransactionStatus, TransactionSemanticStatus, TransactionType, get_semantic_status,
  get_detailed_statuses, detailed_iff_semantic,
}
use api_payment.Transaction.Entity.{Transaction}
use api_payment.Transaction.Service.{CreateTransactionFromWebhook, create_from_webhook}
use api_payment.Transaction.Service.Laws.{create_from_webhook-once}
use api_payment.Webhook.Event.{
  WebhookEvent, value, pix_cash_in_was_received, pix_cash_in_was_cleared, bill_payment_was_received,
  bill_payment_was_created, bill_payment_was_confirmed, bill_payment_was_refused,
}
use api_payment.Webhook.EventLog.{get_last_processed_event, log_event}
use api_payment.Webhook.EventLog.Entity.{WebhookEventLog}
use api_payment.Webhook.EventLog.Latest.{Logged, last_processed, get_last_processed_event-Logged}
use api_payment.Webhook.StateMachine.{is_terminal_event, can_process_webhook}
use api_payment.Webhook.StateMachine.Edges.{flow_of, follows, opens, rank, can_process-follows}
use api_payment.Webhook.StateMachine.Chains.{
  IsAccepted, accepted-length, accepted-flow_of, last_event, reaches_terminal,
}
use api_payment.Webhook.Status.{
  shown_status, terminal_settles, settled_stays, map_webhook_event_to_transaction_status,
}
use api_payment.Webhook.Steps.{process_in_sequence, transaction_for}
use api_payment.Webhook.Steps.Replay.{process-out_of_order}
use api_payment.Webhook.Tests.Fixtures.{
  clock, database, database_at, database_at-IsAt, payload, log_line,
}

abbrev after_received : List WebhookEvent
after_received =
    bill_payment_was_created ∷ bill_payment_was_confirmed ∷ bill_payment_was_refused ∷ []

-- Bill payments have the longest histories.
longest-IsAccepted : IsAccepted none (bill_payment_was_received ∷ after_received)
unfolding can_process_webhook
longest-IsAccepted = (refl, (refl, (refl, (refl, tt))))

accepted-length_example : length (bill_payment_was_received ∷ after_received) ≤ 4
accepted-length_example =
    accepted-length (bill_payment_was_received ∷ after_received) longest-IsAccepted

accepted-flow_of_example :
    (opens bill_payment_was_received ≡ true)
    × All (λ x. flow_of x ≡ flow_of bill_payment_was_received) after_received
    × All (λ x. rank bill_payment_was_received < rank x) after_received
accepted-flow_of_example =
    accepted-flow_of bill_payment_was_received after_received longest-IsAccepted

cleared-IsTerminal : is_terminal_event (value pix_cash_in_was_cleared) ≡ true
unfolding is_terminal_event
cleared-IsTerminal = refl

reaches_terminal_example :
    (es : List WebhookEvent) × IsAccepted (some bill_payment_was_received) es
    × (is_terminal_event (value (last_event bill_payment_was_received es)) ≡ true)
reaches_terminal_example = reaches_terminal bill_payment_was_received

can_process-follows_example :
    (can_process_webhook
      (some (value pix_cash_in_was_received))
      (value pix_cash_in_was_cleared)).can_process
    ≡ follows pix_cash_in_was_received pix_cash_in_was_cleared
can_process-follows_example = can_process-follows pix_cash_in_was_received pix_cash_in_was_cleared

terminal_settles_example :
    shown_status pix_cash_in_was_cleared ≢ TransactionSemanticStatus.processing
terminal_settles_example = terminal_settles pix_cash_in_was_cleared cleared-IsTerminal (λ h. cc)

confirmed-refused :
    (can_process_webhook
      (some (value bill_payment_was_confirmed))
      (value bill_payment_was_refused)).can_process
    ≡ true
unfolding can_process_webhook
confirmed-refused = refl

confirmed_settled : shown_status bill_payment_was_confirmed ≢ TransactionSemanticStatus.processing
unfolding map_webhook_event_to_transaction_status get_semantic_status
confirmed_settled h = cc

settled_stays_example : shown_status bill_payment_was_refused ≢ TransactionSemanticStatus.processing
settled_stays_example =
    settled_stays bill_payment_was_confirmed bill_payment_was_refused confirmed-refused
      confirmed_settled

detailed_iff_semantic_example :
    AnyOf TransactionStatus.refund_pending
      (get_detailed_statuses TransactionSemanticStatus.processing)
    ↔ (get_semantic_status TransactionStatus.refund_pending ≡ TransactionSemanticStatus.processing)
detailed_iff_semantic_example =
    detailed_iff_semantic TransactionStatus.refund_pending TransactionSemanticStatus.processing

abbrev transaction : CreateTransactionFromWebhook
transaction =
    transaction_for "code" (payload "PIX_CASH_IN_WAS_RECEIVED" tt) TransactionType.pix_cash_in
      pix_cash_in_was_received "client" 20000

create_from_webhook-once_example :
    let run = create_from_webhook memory transaction database in
    ((create_from_webhook memory transaction run.1).1 ≡ run.1)
    ⊎ (((x : Exception) × (run.0 ≡ throw x))
        × ((t : List (Row Transaction)) × (run.1 ≡ record database { transactions = t })))
create_from_webhook-once_example =
    create_from_webhook-once memory transaction memory-IsLawful database

-- A processed line, and then one of a failure
abbrev line : WebhookEventLog
line = log_line pix_cash_in_was_received

abbrev failure : WebhookEventLog
failure = record (log_line pix_cash_in_was_cleared) { was_processed = false }

abbrev after_line : Db memory
after_line = (log_event memory line database).1

abbrev after_failure : Db memory
after_failure = (log_event memory failure after_line).1

line_logged :
    log_event memory line database ≡ (Result.ok (record { id = "r"; fields = line }), after_line)
unfolding log_event
line_logged = refl

failure_logged :
    log_event memory failure after_line
    ≡ (Result.ok (record { id = "rr"; fields = failure }), after_failure)
unfolding log_event
failure_logged = refl

abbrev lines : List WebhookEventLog
lines = failure ∷ line ∷ []

logged : Logged memory database lines after_failure
logged =
    Logged.line (line ∷ []) failure _ (Logged.line [] line _ Logged.nothing line_logged)
      failure_logged

none_found : (get_last_processed_event memory "code" database).0 ≡ Result.ok none
unfolding get_last_processed_event
none_found = refl

line_found :
    (get_last_processed_event memory "code" after_failure).0
    ≡ Result.ok (some "PIX_CASH_IN_WAS_RECEIVED")
unfolding get_last_processed_event log_event
line_found = refl

get_last_processed_event-Logged_example :
    some "PIX_CASH_IN_WAS_RECEIVED" ≡ last_processed "code" lines
get_last_processed_event-Logged_example =
    get_last_processed_event-Logged memory memory-IsLawful "code" database none_found lines
      after_failure (some "PIX_CASH_IN_WAS_RECEIVED") logged line_found

process-out_of_order_example :
    (x : Exception) × (process_in_sequence memory clock "code" pix_cash_in_was_received
        (pure tt)
        "PIX_CASH_IN"
        "id"
        (payload "PIX_CASH_IN_WAS_RECEIVED" tt)
        "client"
        (database_at pix_cash_in_was_cleared)
      ≡ (throw x, database_at pix_cash_in_was_cleared))
process-out_of_order_example =
    process-out_of_order memory memory-IsLawful clock "code" "PIX_CASH_IN" "id" "client"
      pix_cash_in_was_cleared pix_cash_in_was_received (pure tt)
      (payload "PIX_CASH_IN_WAS_RECEIVED" tt) (database_at pix_cash_in_was_cleared)
      (database_at-IsAt pix_cash_in_was_cleared) refl
