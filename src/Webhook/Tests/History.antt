-- ===== src/Webhook/Tests/History.antt =====
-- Steps of a payment along the diagram, and an event that fills a TED.
use api_payment.Common.{◌≡◌, refl, true, none}
use api_payment.Common.Exec.{ok, pure}
use api_payment.Platform.Dates.{parse_date}
use api_payment.Platform.Memory.{memory, memory-IsLawful}
use api_payment.Database.{Db}
use api_payment.Ted.Entities.{TedTransferStatus}
use api_payment.Webhook.Event.{pix_cash_in_was_received, pix_cash_in_was_cleared}
use api_payment.Webhook.EventLog.{get_last_processed_event, log_event}
use api_payment.Webhook.Payload.{WebhookPayload, to_payload}
use api_payment.Webhook.StateMachine.{can_process_webhook}
use api_payment.Webhook.StateMachine.Edges.{follows, opens}
use api_payment.Webhook.Steps.{process_in_sequence, check_sequence, log_processed}
use api_payment.Webhook.Steps.Check.{IsAt}
use api_payment.Webhook.Steps.Refine.{process-follows, process-opens}
use api_payment.Webhook.Ted.CashOut.{transfer_after}
use api_payment.Webhook.Ted.CashOut.Filled.{
  is_filled, name_of_sender, document_of_sender, transfer_after-filled,
}
use api_payment.Webhook.Tests.Fixtures.{clock, database, database_at, database_at-IsAt, payload}
use api_payment.Webhook.Tests.Ted.{approved, transfer}

abbrev event : WebhookPayload (Unit {0})
event = payload "PIX_CASH_IN" tt

abbrev received : Db memory
received =
    (process_in_sequence memory clock "code" pix_cash_in_was_received (pure tt) "PIX_CASH_IN" "id"
      event "client" database).1

received_ok :
    process_in_sequence memory clock "code" pix_cash_in_was_received
      (pure tt)
      "PIX_CASH_IN"
      "id"
      event
      "client"
      database
    ≡ (ok tt, received)
unfolding process_in_sequence check_sequence get_last_processed_event can_process_webhook
    log_processed log_event parse_date to_payload
received_ok = refl

process-opens_example :
    (opens pix_cash_in_was_received ≡ true) × IsAt memory "code" pix_cash_in_was_received received
process-opens_example =
    process-opens memory memory-IsLawful clock "code" "PIX_CASH_IN" "id" "client"
      pix_cash_in_was_received (pure tt) event database received refl received_ok

abbrev cleared_at : Db memory
cleared_at =
    (process_in_sequence memory clock "code" pix_cash_in_was_cleared (pure tt) "PIX_CASH_IN" "id"
      event "client" (database_at pix_cash_in_was_received)).1

cleared_at_ok :
    process_in_sequence memory clock "code" pix_cash_in_was_cleared
      (pure tt)
      "PIX_CASH_IN"
      "id"
      event
      "client"
      (database_at pix_cash_in_was_received)
    ≡ (ok tt, cleared_at)
unfolding process_in_sequence check_sequence get_last_processed_event can_process_webhook
    log_processed log_event parse_date to_payload
cleared_at_ok = refl

process-follows_example :
    (follows pix_cash_in_was_received pix_cash_in_was_cleared ≡ true)
    × IsAt memory "code" pix_cash_in_was_cleared cleared_at
process-follows_example =
    process-follows memory memory-IsLawful clock "code" "PIX_CASH_IN" "id" "client"
      pix_cash_in_was_cleared (pure tt) event (database_at pix_cash_in_was_received) cleared_at
      pix_cash_in_was_received (database_at-IsAt pix_cash_in_was_received) cleared_at_ok

transfer_after-filled_example :
    let after = transfer_after TedTransferStatus.approved approved none none transfer in
    (is_filled transfer.correlation_id ≡ true → is_filled after.correlation_id ≡ true)
    × (is_filled transfer.idempotency_key ≡ true → is_filled after.idempotency_key ≡ true)
    × (is_filled transfer.channel ≡ true → is_filled after.channel ≡ true)
    × (is_filled (name_of_sender transfer.sender) ≡ true
        → is_filled (name_of_sender after.sender) ≡ true)
    × (is_filled (document_of_sender transfer.sender) ≡ true
        → is_filled (document_of_sender after.sender) ≡ true)
transfer_after-filled_example =
    transfer_after-filled TedTransferStatus.approved approved none none transfer
