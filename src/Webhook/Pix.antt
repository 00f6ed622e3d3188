-- ===== src/Webhook/Pix.antt =====
-- The PIX webhooks (src/webhook-processor/services/pix-webhook.service.ts).
pub mod Data
pub mod CashIn
pub mod CashOut
pub mod Refund
pub mod QrCode
