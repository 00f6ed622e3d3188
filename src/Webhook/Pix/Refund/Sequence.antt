-- ===== src/Webhook/Pix/Refund/Sequence.antt =====
-- The events of a PIX refund, delivered again (`handleRefundReceived`, `handleRefundCleared`).
use api_payment.Common.{◌≡◌, refl, Bool, some, String}
use api_payment.Common.Exec.{ok, throw, Exception}
use api_payment.Platform.{Row, TypeOrm, IsLawful}
use api_payment.Platform.Dates.{DateParsers}
use api_payment.Platform.Financial.{FinancialProvider}
use api_payment.Database.{Db, pix_refund_repository}
use api_payment.Pix.Entities.{PixRefund}
use api_payment.Webhook.Event.{pix_refund_was_cleared}
use api_payment.Webhook.Payload.{WebhookPayload}
use api_payment.Webhook.Pix.Data.{PixRefundData}
use api_payment.Webhook.Steps.Again.{process_if_found-again}
use api_payment.Webhook.Pix.Refund.{has_code, cleared, refund_cleared}

module _ (o : TypeOrm) (d : DateParsers) (client_id : String)
    (event : WebhookPayload PixRefundData) where
  module _ (laws : IsLawful o) (provider : FinancialProvider) where
    abbrev fits : PixRefund → Bool
    fits = has_code event.event_data.authentication_code

    -- Once a cleared event of a stored refund has been processed, the same event is refused when
    -- it is delivered again: the round throws and writes nothing.
    pub pix_refund_cleared-again :
        (row : Row PixRefund) (db db' : Db o)
        → o.find_one PixRefund (has_code event.event_data.authentication_code) db.pix_refunds
          ≡ ok (some row)
        → refund_cleared o d client_id event db ≡ (ok tt, db')
        → (x : Exception) × (refund_cleared o d client_id event db' ≡ (throw x, db'))
    unfolding refund_cleared
    pix_refund_cleared-again row db db' =
        process_if_found-again o laws d (pix_refund_repository o) fits
          event.event_data.authentication_code pix_refund_was_cleared "PIX_REFUND" client_id event
          event.event_data.description (cleared o d) (λ t db. refl) (λ db t. refl) (λ db t. refl)
          (λ e fits. fits) _ row db db'
