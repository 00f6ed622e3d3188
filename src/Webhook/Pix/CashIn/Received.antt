-- ===== src/Webhook/Pix/CashIn/Received.antt =====
-- The event that a PIX was received, delivered again (`handleCashInReceived`).
use api_payment.Common.{Bool}
use api_payment.Platform.{TypeOrm, IsLawful}
use api_payment.Platform.Dates.{DateParsers}
use api_payment.Platform.Financial.{FinancialProvider}
use api_payment.Account.Entity.{Account}
use api_payment.Pix.Entities.{PixCashIn}
use api_payment.Webhook.Payload.{WebhookPayload}
use api_payment.Webhook.Pix.Data.{PixCashInReceivedData}
use api_payment.Webhook.Pix.CashIn.{has_code}

module _ (o : TypeOrm) (d : DateParsers) (event : WebhookPayload PixCashInReceivedData) where
  module _ (laws : IsLawful o) (provider : FinancialProvider) where
    abbrev fits : PixCashIn → Bool
    fits = has_code event.event_data.authentication_code
