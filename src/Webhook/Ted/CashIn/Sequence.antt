-- ===== src/Webhook/Ted/CashIn/Sequence.antt =====
-- The events of a received TED, delivered again (`handleCashInReceived`, `handleCashInCleared`).
use api_payment.Common.{◌≡◌, refl, Bool, some, String}
use api_payment.Common.Exec.{ok, throw, Exception}
use api_payment.Platform.{Row, TypeOrm, IsLawful}
use api_payment.Platform.Dates.{DateParsers}
use api_payment.Platform.Financial.{FinancialProvider}
use api_payment.Account.Entity.{Account}
use api_payment.Database.{Db, ted_cash_in_repository}
use api_payment.Ted.Entities.{TedCashIn}
use api_payment.Webhook.Event.{ted_cash_in_was_cleared}
use api_payment.Webhook.Payload.{WebhookPayload}
use api_payment.Webhook.Ted.Data.{TedCashInData}
use api_payment.Webhook.Steps.Again.{process_if_found-again}
use api_payment.Webhook.Ted.CashIn.{has_code, cleared, clear_code, cleared_code, cash_in_cleared}

module _ (o : TypeOrm) (d : DateParsers) (event : WebhookPayload TedCashInData) where
  module _ (laws : IsLawful o) (provider : FinancialProvider) where
    abbrev fits : TedCashIn → Bool
    fits = has_code event.event_data.authentication_code

module _ (o : TypeOrm) (laws : IsLawful o) (d : DateParsers) where
  -- Once a cleared event of a stored TED has been processed, the same event is refused when it is
  -- delivered again: the round throws and writes nothing.
  pub ted_cash_in_cleared-again :
      (client_id code : String) (event : WebhookPayload TedCashInData) (row : Row TedCashIn)
      (db db' : Db o)
      → cleared_code o d event ≡ some code
      → o.find_one TedCashIn (has_code code) db.ted_cash_ins ≡ ok (some row)
      → cash_in_cleared o d client_id event db ≡ (ok tt, db')
      → (x : Exception) × (cash_in_cleared o d client_id event db' ≡ (throw x, db'))
  unfolding cash_in_cleared clear_code
  ted_cash_in_cleared-again client_id code event row db db' named found run = rw named (
      process_if_found-again o laws d (ted_cash_in_repository o) (has_code code) code
        ted_cash_in_was_cleared "TED_CASH_IN" client_id event event.event_data.description
        (cleared o d) (λ t db. refl) (λ db t. refl) (λ db t. refl) (λ e fits. fits) _ row db db'
        found (rw named at run))
