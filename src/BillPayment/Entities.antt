-- ===== src/BillPayment/Entities.antt =====
-- The bill payment (src/bill-payment/entities, src/bill-payment/enums).
-- Columns that the database or TypeORM fills (the id, the dates of creation, change and deletion) and
-- the joined rows of other entities are left to the engine. Amounts are in cents; a column that a
-- handler may leave undefined is an `Option`.
use api_payment.Common.{ℕ, String, Option}
use api_payment.Platform.Dates.{Date}
use api_payment.Platform.Financial.{FinancialProvider, PaymentRecipient}

pub data BillPaymentStatus : Type 0 where
  created completed confirmed cancelled : BillPaymentStatus

-- A bill that a client pays.
pub record BillPayment : Type 0 where
  pub amount : Option ℕ
  pub currency : String
  pub description : Option String
  pub provider_slug : FinancialProvider
  pub client_id : String
  pub account_id : Option String
  pub status : BillPaymentStatus
  pub digitable : String
  pub validation_id : Option String
  pub authentication_code : Option String
  pub transaction_id : Option String
  pub assignor : Option String
  pub recipient : Option PaymentRecipient
  pub original_amount : Option ℕ
  pub interest_amount : Option ℕ
  pub fine_amount : Option ℕ
  pub discount_amount : Option ℕ
  pub due_date : Option Date
  pub settle_date : Option Date
  pub payment_date : Option Date
  pub confirmed_at : Option Date
  pub bank_branch : String
  pub bank_account : String
  pub confirmation_transaction_id : Option String
  pub error_code : Option String
  pub error_message : Option String
  pub cancel_reason : Option String
