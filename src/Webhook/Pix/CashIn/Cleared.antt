-- ===== src/Webhook/Pix/CashIn/Cleared.antt =====
-- The event that a PIX was cleared, delivered again (`handleCashInCleared`).
use api_payment.Common.{String, ◌≡◌, refl, some}
use api_payment.Common.Exec.{ok, throw, Exception}
use api_payment.Platform.{Row, TypeOrm, IsLawful}
use api_payment.Platform.Dates.{DateParsers}
use api_payment.Database.{Db, pix_cash_in_repository}
use api_payment.Pix.Entities.{PixCashIn}
use api_payment.Webhook.Event.{pix_cash_in_was_cleared}
use api_payment.Webhook.Payload.{WebhookPayload}
use api_payment.Webhook.Pix.Data.{PixCashInClearedData}
use api_payment.Webhook.Steps.Again.{process_if_found-again}
use api_payment.Webhook.Pix.CashIn.{cleared, has_code, clear_code, cleared_code, cash_in_cleared}

module _ (o : TypeOrm) (laws : IsLawful o) (d : DateParsers) where
  -- Once a cleared event of a stored PIX has been processed, the same event is refused when it is
  -- delivered again: the round throws and writes nothing.
  pub pix_cash_in_cleared-again :
      (client_id code : String) (event : WebhookPayload PixCashInClearedData) (row : Row PixCashIn)
      (db db' : Db o)
      → cleared_code o d event ≡ some code
      → o.find_one PixCashIn (has_code code) db.pix_cash_ins ≡ ok (some row)
      → cash_in_cleared o d client_id event db ≡ (ok tt, db')
      → (x : Exception) × (cash_in_cleared o d client_id event db' ≡ (throw x, db'))
  unfolding cash_in_cleared clear_code
  pix_cash_in_cleared-again client_id code event row db db' named found run = rw named (
      process_if_found-again o laws d (pix_cash_in_repository o) (has_code code) code
        pix_cash_in_was_cleared "PIX_CASH_IN" client_id event event.event_data.description
        (cleared o d) (λ t db. refl) (λ db t. refl) (λ db t. refl) (λ e fits. fits) _ row db db'
        found (rw named at run))
