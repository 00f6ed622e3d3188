-- ===== src/Webhook/BillPayment/Sequence.antt =====
-- The sequence of the events of a bill payment.
use api_payment.Common.{String, arith, ◌≡◌, List, ◌∷◌, true}
use api_payment.Common.Exec.{ok, throw, Exception}
use api_payment.Platform.{Row, TypeOrm, IsLawful}
use api_payment.Platform.Dates.{DateParsers}
use api_payment.Platform.Financial.{FinancialProvider}
use api_payment.Database.{Db, bill_payment_repository}
use api_payment.Transaction.Service.{update_status}
use api_payment.BillPayment.Entities.{BillPayment}
use api_payment.Webhook.Event.{WebhookEvent, pix_cash_in_was_received}
use api_payment.Webhook.Payload.{WebhookPayload}
use api_payment.Webhook.Steps.{parse_financial_provider}
use api_payment.Webhook.Steps.Batch.{IsGuarded, for_each-again}
use api_payment.Webhook.Steps.Guarded.{process_found-IsGuarded}
use api_payment.Webhook.BillPayment.Data.{BillPaymentWebhookData}
use api_payment.Webhook.BillPayment.{
  has_code, write_created, write_status, write_confirmed, write_of, bill_payment_event, handle,
}

abbrev code_of : WebhookPayload BillPaymentWebhookData → String
code_of event = event.event_data.authentication_code

module _ (o : TypeOrm) (d : DateParsers) where
  -- What a handler writes leaves the log alone.
  write-event_logs :
      (name : WebhookEvent) (event : WebhookPayload BillPaymentWebhookData) (row : Row BillPayment)
      (db : Db o)
      → (write_of o d name event row db).1.event_logs ≡ db.event_logs
  unfolding write_of write_created write_status write_confirmed update_status
  write-event_logs pix_cash_in_was_received event row db = ground arith
  write-event_logs _ event row db = ground arith

  bill_payment_event-IsGuarded :
      (name : WebhookEvent) (client_id : String)
      → IsLawful o
      → IsGuarded o code_of name (bill_payment_event o d name client_id)
  unfolding bill_payment_event
  bill_payment_event-IsGuarded name client_id laws =
      process_found-IsGuarded o laws d (bill_payment_repository o) has_code code_of name
        (write_of o d name) "BILL_PAYMENT" client_id (write-event_logs name)

  -- Once the round for the first event of a batch of bill payment events that are bound to the
  -- sequence has ended well, running the handler again on the batch throws at once and writes
  -- nothing, however the rest of the batch had ended.
  pub bill_payment-again :
      (name : WebhookEvent) (client_id slug : String) (provider : FinancialProvider)
      (event : WebhookPayload BillPaymentWebhookData)
      (events : List (WebhookPayload BillPaymentWebhookData)) (db db1 : Db o)
      → IsLawful o
      → parse_financial_provider slug ≡ ok provider
      → bill_payment_event o d name client_id event db ≡ (ok tt, db1)
      → let handler =
          handle o d (bill_payment_event o d name) (event ∷ events) client_id slug true in
        let after = (handler db).1 in (x : Exception) × (handler after ≡ (throw x, after))
  unfolding handle
  bill_payment-again name client_id slug provider event events db db1 laws parsed first =
      rw parsed (
        for_each-again o code_of name (bill_payment_event o d name client_id)
          (bill_payment_event-IsGuarded name client_id laws) event events db db1 first)
