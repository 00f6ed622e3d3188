-- ===== src/Webhook/Ted.antt =====
-- The TED webhooks (src/webhook-processor/services/ted-webhook.service.ts).
pub mod Data
pub mod CashOut
pub mod CashIn
pub mod Refund
