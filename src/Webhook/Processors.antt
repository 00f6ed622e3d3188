-- ===== src/Webhook/Processors.antt =====
-- The queue processors (src/webhook-processor/processors): a job is handed to the handler of its
-- event type, and after the last attempt each event of a failed job is logged as not processed. The
-- processors write the same code out; what they share is here.
pub mod Pix
pub mod Ted
pub mod Boleto
pub mod BillPayment
pub mod Failures
use Prim.Native.String.{◌++◌}
use api_payment.Common.{
  ℕ, String, Bool, Option, none, some, List, truthy, leb, false, if◌then◌else◌,
}
use api_payment.Common.Numbers.{text_of_number}
use api_payment.Common.Exec.{Exec, ok, pure, lift, ◌>>=◌, for_each}
use api_payment.Platform.{TypeOrm}
use api_payment.Platform.Dates.{DateParsers, parse_date}
use api_payment.Database.{Db}
use api_payment.Webhook.Event.{WebhookEvent, value}
use api_payment.Webhook.EventLog.{log_event}
use api_payment.Webhook.Payload.{WebhookPayload, to_payload}

-- What the jobs of the four queues have besides their event type and events.
pub record JobData : Type 0 where
  pub client_id : String
  pub provider_slug : String
  pub valid_public_key : Bool

-- What Bull tells of a job that failed; `attempts` is `job.opts.attempts`.
pub record FailedJob : Type 0 where
  pub attempts_made : ℕ
  pub attempts : Option ℕ
  pub error_message : String

-- `job.opts.attempts ?? 5`
abbrev pub max_attempts : Option ℕ → ℕ
max_attempts none = 5
max_attempts (some n) = n

-- `try { … } catch (logError) { … }`
abbrev attempt : {S A : Type 0} → Exec S A → Exec S (Unit {0})
attempt m s = (ok tt, (m s).1)

module _ (o : TypeOrm) (d : DateParsers) {T : Type 0} (code_of : T → Option String)
    (entity_type : String) (name : WebhookEvent) (client_id : String) (job : FailedJob) where
  -- The line for an event whose code is known.
  log_failure : WebhookPayload T → Option String → Exec (Db o) (Unit {0})
  log_failure event none = pure tt
  log_failure event (some code) = attempt (do
    date ← lift (parse_date d event.timestamp)
    log_event o (record {
      authentication_code = code;
      entity_type = entity_type;
      entity_id = none;
      event_name = value name;
      was_processed = false;
      skip_reason = some (
          "Failed after "
          ++ text_of_number (max_attempts job.attempts)
          ++ " attempts: "
          ++ job.error_message);
      payload = some (to_payload event.raw);
      provider_timestamp = some date;
      client_id = client_id;
    }))

  -- One round of the loop of `onFailed`.
  unfoldable pub failed_event : WebhookPayload T → Exec (Db o) (Unit {0})
  unfolding log_failure
  failed_event event = log_failure event (code_of event.event_data)

  -- `onFailed`, for the events of a job
  unfoldable pub on_failed_events : List (WebhookPayload T) → Exec (Db o) (Unit {0})
  unfolding failed_event
  on_failed_events events =
      if leb (max_attempts job.attempts) job.attempts_made
      then for_each failed_event events
      else pure tt
