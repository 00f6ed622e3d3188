-- ===== src/Webhook/StateMachine.antt =====
-- The sequence of webhook events (src/webhook-processor/helpers/webhook-state-machine.helper.ts).
-- Event names are texts, as they are in the source; `null` and `undefined` are `none`. The table
-- is searched by its own keys: a name that a JavaScript object inherits, such as "toString", is
-- no event that a caller passes.
pub mod Edges
pub mod Chains
use api_payment.Common.{
  Bool, true, false, Option, none, some, List, [], ◌∷◌, str_eq as ◌==◌, truthy, if◌then◌else◌,
}
use api_payment.Common.Lists.{includes, filter}
use api_payment.Webhook.Event.{
  WebhookEvent, pix_cash_in_was_received, pix_cash_in_was_cleared, pix_cashout_was_completed,
  pix_cashout_was_canceled, pix_cashout_was_undone, pix_refund_was_received, pix_refund_was_cleared,
  pix_qrcode_was_created, boleto_was_registered, boleto_cash_in_was_received,
  boleto_cash_in_was_cleared, boleto_was_cancelled, bill_payment_was_received,
  bill_payment_was_created, bill_payment_was_confirmed, bill_payment_has_failed,
  bill_payment_was_cancelled, bill_payment_was_refused, ted_cash_out_was_approved,
  ted_cash_out_was_done, ted_cash_out_was_canceled, ted_cash_out_was_reproved,
  ted_cash_out_was_undone, ted_cash_in_was_received, ted_cash_in_was_cleared,
  ted_refund_was_received, ted_refund_was_cleared, value,
}
use text.Mathlib.Text.{starts_with}
use Prim.Native.String.{String, ◌++◌}

pub record WebhookValidationResult : Type 0 where
  pub can_process : Bool
  pub reason : Option String
  pub current_event : Option String
  pub attempted_event : String

pub record StateConfig : Type 0 where
  pub allowed_previous : List String
  pub is_terminal : Bool

abbrev values : List WebhookEvent → List String
values [] = []
values (e ∷ es) = value e ∷ values es

abbrev entry : WebhookEvent → List WebhookEvent → Bool → String × StateConfig
entry e previous terminal =
    (value e, record { allowed_previous = values previous; is_terminal = terminal })

-- `STATE_MACHINE`
abbrev pub state_machine : List (String × StateConfig)
state_machine =
    entry pix_cash_in_was_received [] false
    ∷ entry pix_cash_in_was_cleared (pix_cash_in_was_received ∷ []) true
    ∷ entry pix_cashout_was_completed [] true
    ∷ entry pix_cashout_was_canceled [] false
    ∷ entry pix_cashout_was_undone (pix_cashout_was_canceled ∷ []) true
    ∷ entry pix_refund_was_received [] false
    ∷ entry pix_refund_was_cleared (pix_refund_was_received ∷ []) true
    ∷ entry pix_qrcode_was_created [] true
    ∷ entry boleto_was_registered [] false
    ∷ entry boleto_cash_in_was_received (boleto_was_registered ∷ []) false
    ∷ entry boleto_cash_in_was_cleared (boleto_cash_in_was_received ∷ []) true
    ∷ entry boleto_was_cancelled (boleto_was_registered ∷ boleto_cash_in_was_received ∷ []) true
    ∷ entry bill_payment_was_received [] false
    ∷ entry bill_payment_was_created (bill_payment_was_received ∷ []) false
    ∷ entry bill_payment_was_confirmed (bill_payment_was_created ∷ []) false
    ∷ entry bill_payment_has_failed (bill_payment_was_received ∷ bill_payment_was_created ∷ [])
        false
    ∷ entry bill_payment_was_cancelled (bill_payment_has_failed ∷ []) true
    ∷ entry bill_payment_was_refused (bill_payment_was_confirmed ∷ []) true
    ∷ entry ted_cash_out_was_approved [] false
    ∷ entry ted_cash_out_was_done (ted_cash_out_was_approved ∷ []) true
    ∷ entry ted_cash_out_was_canceled (ted_cash_out_was_approved ∷ []) false
    ∷ entry ted_cash_out_was_reproved [] true
    ∷ entry ted_cash_out_was_undone (ted_cash_out_was_canceled ∷ []) true
    ∷ entry ted_cash_in_was_received [] false
    ∷ entry ted_cash_in_was_cleared (ted_cash_in_was_received ∷ []) true
    ∷ entry ted_refund_was_received [] false
    ∷ entry ted_refund_was_cleared (ted_refund_was_received ∷ []) true
    ∷ []

-- `TERMINAL_EVENTS`
abbrev pub terminal_events : List String
terminal_events =
    value pix_cash_in_was_cleared
    ∷ value pix_cashout_was_completed
    ∷ value pix_cashout_was_undone
    ∷ value pix_refund_was_cleared
    ∷ value pix_qrcode_was_created
    ∷ value boleto_cash_in_was_cleared
    ∷ value boleto_was_cancelled
    ∷ value bill_payment_was_cancelled
    ∷ value bill_payment_was_refused
    ∷ value ted_cash_out_was_done
    ∷ value ted_cash_out_was_reproved
    ∷ value ted_cash_out_was_undone
    ∷ value ted_cash_in_was_cleared
    ∷ value ted_refund_was_cleared
    ∷ []

-- `STATE_MACHINE[event]`
abbrev find_config : String → List (String × StateConfig) → Option StateConfig
find_config event [] = none
find_config event ((key, config) ∷ table) =
    if key == event then some config else find_config event table

unfoldable pub is_terminal_event : String → Bool
is_terminal_event event = includes terminal_events event

abbrev verdict : Bool → Option String → String → String → WebhookValidationResult
verdict allowed current incoming reason = record {
  can_process = allowed;
  reason = if allowed then none else some reason;
  current_event = current;
  attempted_event = incoming;
}

abbrev is_empty : List String → Bool
is_empty [] = true
is_empty (x ∷ xs) = false

-- The part of `canProcessWebhook` after the two early checks on the configuration and on a
-- missing current event.
from_current : StateConfig → String → String → WebhookValidationResult
unfolding is_terminal_event
from_current config current incoming =
    if is_terminal_event current
    then verdict false (some current) incoming
        ("Current state " ++ current ++ " is terminal, cannot process " ++ incoming)
    else verdict (includes config.allowed_previous current) (some current) incoming
        ("Invalid transition from " ++ current ++ " to " ++ incoming)

from_state : StateConfig → Option String → String → WebhookValidationResult
unfolding from_current
from_state config none incoming =
    verdict (is_empty config.allowed_previous) none incoming
      ("Event " ++ incoming ++ " requires a previous state")
from_state config (some current) incoming = from_current config current incoming

from_config : Option StateConfig → Option String → String → WebhookValidationResult
unfolding from_state
from_config none current incoming = record {
  can_process = true;
  reason = some "Unknown event, allowing by default";
  current_event = none;
  attempted_event = incoming;
}
from_config (some config) current incoming = from_state config (truthy current) incoming

unfoldable pub can_process_webhook : Option String → String → WebhookValidationResult
unfolding from_config
can_process_webhook current incoming =
    from_config (find_config incoming state_machine) current incoming

-- `getTerminalEventsForFlow`
unfoldable pub get_terminal_events_for_flow : String → List String
get_terminal_events_for_flow prefix = filter (λ event. starts_with event prefix) terminal_events
