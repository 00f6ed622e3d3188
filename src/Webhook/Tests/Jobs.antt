-- ===== src/Webhook/Tests/Jobs.antt =====
-- Jobs of the queues on a database in memory.
use api_payment.Common.{String, Option, ◌≡◌, refl, false, none, [], ◌∷◌, truthy_text}
use api_payment.Common.Exec.{for_each}
use api_payment.Common.Lists.{length}
use api_payment.Common.Numbers.{text_of_number}
use api_payment.Platform.Dates.{parse_date}
use api_payment.Platform.Memory.{memory}
use api_payment.Database.{Db}
use api_payment.Webhook.Event.{pix_cash_in_was_received}
use api_payment.Webhook.EventLog.{log_event}
use api_payment.Webhook.Payload.{WebhookPayload, to_payload}
use api_payment.Webhook.Pix.Data.{PixCashInReceivedData}
use api_payment.Webhook.Processors.{JobData, FailedJob, failed_event, on_failed_events}
use api_payment.Webhook.Processors.Pix.{PixWebhookJob, handle_job, unverified_pix_job}
use api_payment.Webhook.Tests.Fixtures.{clock, database, database_at, payload, amount, recipient}

abbrev received : WebhookPayload PixCashInReceivedData
received = payload "PIX_CASH_IN_WAS_RECEIVED" (record {
  authentication_code = "code";
  amount = amount;
  description = none;
  addressing_key = none;
  recipient = recipient;
  channel = none;
  created_at = none;
})

abbrev given_up : FailedJob
given_up = record { attempts_made = 5; attempts = none; error_message = "Transaction not found" }

abbrev failed_database : Db memory
failed_database = database_at pix_cash_in_was_received

abbrev code_of : PixCashInReceivedData → Option String
code_of it = truthy_text it.authentication_code

-- The failure is in the log.
failure_logged :
    length
      (on_failed_events memory clock
        (λ it. truthy_text it.authentication_code)
        "PIX_CASH_IN"
        pix_cash_in_was_received
        "client"
        given_up
        (received ∷ [])
        failed_database).1.event_logs
    ≡ 2
unfolding on_failed_events failed_event log_event parse_date to_payload text_of_number for_each
failure_logged = refl

abbrev unverified : JobData
unverified = record { client_id = "client"; provider_slug = "hiperbanco"; valid_public_key = false }

unverified_pix_job_example :
    (handle_job memory clock unverified (PixWebhookJob.cash_in_received (received ∷ [])) database).1
    ≡ database
unverified_pix_job_example =
    unverified_pix_job memory clock unverified (PixWebhookJob.cash_in_received (received ∷ []))
      database refl
