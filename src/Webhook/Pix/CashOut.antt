-- ===== src/Webhook/Pix/CashOut.antt =====
-- A PIX that was sent is completed, canceled or undone
-- (src/webhook-processor/services/pix-webhook.service.ts, `processCashOutEvent` and the three handlers
-- that call it).
pub mod Sequence
use api_payment.Common.{String, Bool, Option, none, some, List, truthy, or_false, ◌&?◌}
use api_payment.Common.Exec.{Exec, not_found, pure, raise, lift, ◌>>=◌, ◌>>◌, for_each}
use api_payment.Platform.{Row, TypeOrm}
use api_payment.Platform.Dates.{Date, DateParsers}
use api_payment.Database.{Db, find_one, update, pix_transfer_repository}
use api_payment.Pix.Entities.{PixTransfer, PixTransferStatus}
use api_payment.Webhook.Event.{
  WebhookEvent, value, pix_cashout_was_completed, pix_cashout_was_canceled, pix_cashout_was_undone,
}
use api_payment.Webhook.Payload.{WebhookPayload}
use api_payment.Webhook.Pix.Data.{PixCashOutData}
use api_payment.Webhook.Steps.{
  parse_financial_provider, parse_optional, is_text, process_found, save_and_update, if_valid,
}

-- `if (!endToEndId && data.channel?.endToEndId) …`
abbrev pub given_or : Option String → Option String → Option String
given_or stored given = elim (truthy stored) [
  | some s ↦ stored
  | none ↦ elim (truthy given) [ some g ↦ given | none ↦ stored ]
]

-- The assignments to the transfer.
unfoldable pub transfer_after :
    PixTransferStatus → Option Date → PixCashOutData → PixTransfer → PixTransfer
transfer_after status payment_date it t = record t {
  status = status;
  payment_date = payment_date;
  is_refund = or_false it.is_refund;
  end_to_end_id_original = it.end_to_end_id_original;
  refusal_reason = it.channel &? (λ c. c.refusal_reason);
  is_pix_open_banking = or_false (it.channel &? (λ c. c.is_pix_open_banking));
  is_internal = or_false (it.channel &? (λ c. c.is_internal));
  end_to_end_id = given_or t.end_to_end_id (it.channel &? (λ c. c.end_to_end_id));
}

abbrev has_code : String → PixTransfer → Bool
has_code code t = is_text code t.authentication_code

module _ (o : TypeOrm) (d : DateParsers) (status : PixTransferStatus) (name : WebhookEvent) where
  write_cash_out : WebhookPayload PixCashOutData → Row PixTransfer → Exec (Db o) (Unit {0})
  write_cash_out event row = do
    let it = event.event_data
    payment_date ← lift (parse_optional d it.payment_date)
    save_and_update o d (pix_transfer_repository o)
        (record row { fields = transfer_after status payment_date it row.fields })
        it.authentication_code name it.description event

  -- One round of the loop of `processCashOutEvent`.
  unfoldable pub cash_out_event : String → WebhookPayload PixCashOutData → Exec (Db o) (Unit {0})
  unfolding write_cash_out
  cash_out_event client_id event =
      let code = event.event_data.authentication_code in
      process_found o d (pix_transfer_repository o) (has_code code) code name (write_cash_out event)
        "PIX_TRANSFER" event client_id

  unfoldable pub process_cash_out_event :
      List (WebhookPayload PixCashOutData)
      → (client_id provider_slug : String) → Bool
      → Exec (Db o) (Unit {0})
  unfolding cash_out_event
  process_cash_out_event events client_id provider_slug valid_public_key = do
    provider ← lift (parse_financial_provider provider_slug)
    if_valid valid_public_key (for_each (cash_out_event client_id) events)

module _ (o : TypeOrm) (d : DateParsers) (events : List (WebhookPayload PixCashOutData))
    (client_id provider_slug : String) (valid_public_key : Bool) where
  unfoldable pub handle_cash_out_completed : Exec (Db o) (Unit {0})
  unfolding process_cash_out_event
  handle_cash_out_completed =
      process_cash_out_event o d PixTransferStatus.done pix_cashout_was_completed events client_id
        provider_slug valid_public_key

  unfoldable pub handle_cash_out_canceled : Exec (Db o) (Unit {0})
  unfolding process_cash_out_event
  handle_cash_out_canceled =
      process_cash_out_event o d PixTransferStatus.canceled pix_cashout_was_canceled events
        client_id provider_slug valid_public_key

  unfoldable pub handle_cash_out_undone : Exec (Db o) (Unit {0})
  unfolding process_cash_out_event
  handle_cash_out_undone =
      process_cash_out_event o d PixTransferStatus.undone pix_cashout_was_undone events client_id
        provider_slug valid_public_key
