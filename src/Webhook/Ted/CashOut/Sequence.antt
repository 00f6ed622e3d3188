-- ===== src/Webhook/Ted/CashOut/Sequence.antt =====
-- The sequence of the events of a TED that was sent.
use api_payment.Common.{String, ◌≡◌, refl, List, ◌∷◌, true}
use api_payment.Common.Exec.{ok, throw, Exception, continue-keeps}
use api_payment.Platform.{Row, TypeOrm, IsLawful}
use api_payment.Platform.Dates.{DateParsers}
use api_payment.Database.{Db, ted_transfer_repository}
use api_payment.Ted.Entities.{TedTransfer, TedTransferStatus}
use api_payment.Webhook.Event.{WebhookEvent}
use api_payment.Webhook.Payload.{WebhookPayload}
use api_payment.Webhook.Ted.Data.{TedCashOutData}
use api_payment.Webhook.Steps.{parse_optional}
use api_payment.Webhook.Steps.Frame.{save_and_update-event_logs}
use api_payment.Webhook.Steps.Batch.{IsGuarded, for_each-again}
use api_payment.Webhook.Steps.Guarded.{process_found-IsGuarded}
use api_payment.Webhook.Ted.CashOut.{
  transfer_after, has_code, write_cash_out, cash_out_event, process_cash_out_event,
}

abbrev code_of : WebhookPayload TedCashOutData → String
code_of event = event.event_data.authentication_code

module _ (o : TypeOrm) (d : DateParsers) (status : TedTransferStatus) (name : WebhookEvent) where
  write-event_logs :
      (event : WebhookPayload TedCashOutData) (row : Row TedTransfer) (db : Db o)
      → (write_cash_out o d status name event row db).1.event_logs ≡ db.event_logs
  unfolding write_cash_out
  write-event_logs event row db =
      let it = event.event_data in
      continue-keeps (λ s. s.event_logs ≡ db.event_logs) (parse_optional d it.payment_date, db) _
        refl
        λ payment_date same.
          continue-keeps (λ s. s.event_logs ≡ db.event_logs) (parse_optional d it.created_at, db) _
            refl
            λ created_at still.
              save_and_update-event_logs o d (ted_transfer_repository o)
                (record row {
                  fields = transfer_after status event payment_date created_at row.fields;
                })
                it.authentication_code name it.description event db (λ t. refl)

module _ (o : TypeOrm) (laws : IsLawful o) (d : DateParsers) (status : TedTransferStatus)
    (name : WebhookEvent) (client_id : String) where
  cash_out-IsGuarded : IsGuarded o code_of name (cash_out_event o d status name client_id)
  unfolding cash_out_event
  cash_out-IsGuarded =
      process_found-IsGuarded o laws d (ted_transfer_repository o) has_code code_of name
        (write_cash_out o d status name) "TED_TRANSFER" client_id (write-event_logs o d status name)

  -- Once the round for the first event of a batch of outgoing TED events has ended well, running
  -- the handler again on the batch throws at once and writes nothing, however the rest of the batch
  -- had ended.
  pub process_ted_cash_out-again :
      (slug : String) (event : WebhookPayload TedCashOutData)
      (events : List (WebhookPayload TedCashOutData)) (db db1 : Db o)
      → cash_out_event o d status name client_id event db ≡ (ok tt, db1)
      → let handler = process_cash_out_event o d status name (event ∷ events) client_id slug true in
        let after = (handler db).1 in (x : Exception) × (handler after ≡ (throw x, after))
  unfolding process_cash_out_event
  process_ted_cash_out-again slug event events db db1 first =
      for_each-again o code_of name (cash_out_event o d status name client_id) cash_out-IsGuarded
        event events db db1 first
