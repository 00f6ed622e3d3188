-- ===== src/Transaction/Entity.antt =====
-- The transaction, one line of a statement (src/transaction/entities/transaction.entity.ts).
-- Columns that the database or TypeORM fills (the id, the dates of creation, change and deletion) and
-- the joined rows of other entities are left to the engine. Amounts are in cents; a column that a
-- handler may leave undefined is an `Option`.
use api_payment.Common.{ℕ, String, Option}
use api_payment.Platform.Dates.{Date}
use api_payment.Transaction.Status.{TransactionStatus, TransactionType}

-- Unique by its authentication code.
pub record Transaction : Type 0 where
  pub authentication_code : String
  pub correlation_id : Option String
  pub idempotency_key : Option String
  pub entity_id : Option String
  pub type : TransactionType
  pub status : TransactionStatus
  pub amount : Option ℕ
  pub currency : String
  pub description : Option String
  pub pix_cash_in_id : Option String
  pub pix_transfer_id : Option String
  pub pix_refund_id : Option String
  pub boleto_id : Option String
  pub bill_payment_id : Option String
  pub pix_qr_code_id : Option String
  pub ted_transfer_id : Option String
  pub ted_cash_in_id : Option String
  pub ted_refund_id : Option String
  pub account_id : Option String
  pub client_id : String
  pub provider_timestamp : Option Date
