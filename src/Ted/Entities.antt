-- ===== src/Ted/Entities.antt =====
-- The TED entities (src/ted/entities, src/ted/enums).
-- Columns that the database or TypeORM fills (the id, the dates of creation, change and deletion) and
-- the joined rows of other entities are left to the engine. Amounts are in cents; a column that a
-- handler may leave undefined is an `Option`.
use api_payment.Common.{ℕ, String, Option}
use api_payment.Platform.Dates.{Date}
use api_payment.Platform.Financial.{FinancialProvider, PaymentSender, PaymentRecipient}

pub data TedTransferStatus : Type 0 where
  created in_process approved reproved done undone canceled failed : TedTransferStatus

pub data TedCashInStatus : Type 0 where
  received cleared failed : TedCashInStatus

pub data TedRefundStatus : Type 0 where
  received cleared failed : TedRefundStatus

-- A TED that was sent; a row without a sender or recipient has none joined.
pub record TedTransfer : Type 0 where
  pub amount : Option ℕ
  pub currency : String
  pub description : Option String
  pub provider_slug : FinancialProvider
  pub client_id : String
  pub account_id : Option String
  pub status : TedTransferStatus
  pub authentication_code : Option String
  pub correlation_id : Option String
  pub idempotency_key : Option String
  pub provider_transaction_id : Option String
  pub channel : Option String
  pub payment_date : Option Date
  pub refusal_reason : Option String
  pub sender : Option PaymentSender
  pub recipient : Option PaymentRecipient
  pub provider_created_at : Option Date

-- A TED that was received.
pub record TedCashIn : Type 0 where
  pub amount : Option ℕ
  pub currency : String
  pub description : Option String
  pub provider_slug : FinancialProvider
  pub client_id : String
  pub account_id : Option String
  pub authentication_code : String
  pub correlation_id : Option String
  pub idempotency_key : Option String
  pub entity_id : Option String
  pub status : TedCashInStatus
  pub channel : Option String
  pub sender : PaymentSender
  pub recipient : PaymentRecipient
  pub provider_created_at : Option Date

-- A TED that was given back.
pub record TedRefund : Type 0 where
  pub amount : Option ℕ
  pub currency : String
  pub description : Option String
  pub provider_slug : FinancialProvider
  pub client_id : String
  pub account_id : Option String
  pub authentication_code : String
  pub correlation_id : Option String
  pub idempotency_key : Option String
  pub entity_id : Option String
  pub status : TedRefundStatus
  pub original_authentication_code : Option String
  pub refund_reason : Option String
  pub error_code : Option String
  pub error_reason : Option String
  pub related_ted_transfer_id : Option String
  pub related_ted_cash_in_id : Option String
  pub sender : PaymentSender
  pub recipient : PaymentRecipient
  pub provider_created_at : Option Date
