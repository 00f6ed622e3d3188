-- ===== src/Pix/Entities.antt =====
-- The PIX entities (src/pix/entities, src/pix/enums).
-- Columns that the database or TypeORM fills (the id, the dates of creation, change and deletion) and
-- the joined rows of other entities are left to the engine. Amounts are in cents; a column that a
-- handler may leave undefined is an `Option`.
use api_payment.Common.{ℕ, String, Bool, Option}
use api_payment.Platform.Dates.{Date}
use api_payment.Platform.Financial.{FinancialProvider, PaymentSender, PaymentRecipient}

pub data PixCashInStatus : Type 0 where
  received cleared failed : PixCashInStatus

pub data PixRefundStatus : Type 0 where
  received cleared failed : PixRefundStatus

pub data PixTransferStatus : Type 0 where
  created in_process approved reproved done undone canceled : PixTransferStatus

pub data PixTransactionType : Type 0 where
  credit debit : PixTransactionType

pub data PixQrCodeType : Type 0 where
  static dynamic : PixQrCodeType

pub data PixQrCodeStatus : Type 0 where
  created paid expired : PixQrCodeStatus

pub data PixKeyType : Type 0 where
  cpf cnpj email phone evp : PixKeyType

-- A PIX that was received.
pub record PixCashIn : Type 0 where
  pub amount : Option ℕ
  pub currency : String
  pub description : Option String
  pub provider_slug : FinancialProvider
  pub client_id : String
  pub account_id : Option String
  pub authentication_code : String
  pub correlation_id : Option String
  pub idempotency_key : Option String
  pub entity_id : Option String
  pub status : PixCashInStatus
  pub end_to_end_id : Option String
  pub initialization_type : Option String
  pub receiver_reconciliation_id : Option String
  pub payment_priority : Option String
  pub payment_priority_type : Option String
  pub payment_purpose : Option String
  pub addressing_key_value : Option String
  pub addressing_key_type : Option String
  pub sender : PaymentSender
  pub recipient : PaymentRecipient
  pub provider_created_at : Option Date

-- A PIX that was given back.
pub record PixRefund : Type 0 where
  pub amount : Option ℕ
  pub currency : String
  pub description : Option String
  pub provider_slug : FinancialProvider
  pub client_id : String
  pub account_id : Option String
  pub authentication_code : String
  pub correlation_id : Option String
  pub idempotency_key : Option String
  pub entity_id : Option String
  pub status : PixRefundStatus
  pub end_to_end_id : Option String
  pub end_to_end_id_original : Option String
  pub refund_reason : Option String
  pub error_code : Option String
  pub error_reason : Option String
  pub related_pix_cash_in_id : Option String
  pub related_pix_transfer_id : Option String
  pub sender : PaymentSender
  pub recipient : PaymentRecipient
  pub provider_created_at : Option Date

-- A PIX that was sent.
pub record PixTransfer : Type 0 where
  pub amount : Option ℕ
  pub currency : String
  pub description : Option String
  pub provider_slug : FinancialProvider
  pub client_id : String
  pub account_id : Option String
  pub status : PixTransferStatus
  pub type : Option PixTransactionType
  pub channel : Option String
  pub initialization_type : String
  pub end_to_end_id : Option String
  pub pix_key : Option String
  pub transaction_id : Option String
  pub authentication_code : Option String
  pub correlation_id : Option String
  pub idempotency_key : Option String
  pub sender : PaymentSender
  pub recipient : PaymentRecipient
  pub payment_date : Option Date
  pub is_refund : Bool
  pub end_to_end_id_original : Option String
  pub refusal_reason : Option String
  pub is_pix_open_banking : Bool
  pub is_internal : Bool

-- A QR code to be paid by PIX.
pub record PixQrCode : Type 0 where
  pub amount : Option ℕ
  pub currency : String
  pub description : Option String
  pub provider_slug : FinancialProvider
  pub client_id : String
  pub account_id : Option String
  pub encoded_value : String
  pub type : PixQrCodeType
  pub status : PixQrCodeStatus
  pub conciliation_id : Option String
  pub addressing_key_type : PixKeyType
  pub addressing_key_value : String
  pub recipient_name : Option String
  pub category_code : Option String
  pub location_city : Option String
  pub location_zip_code : Option String
  pub single_payment : Bool
  pub expires_at : Option Date
  pub change_amount_type : Option String
  pub payer : Option PaymentSender
