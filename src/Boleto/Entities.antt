-- ===== src/Boleto/Entities.antt =====
-- The boleto (src/boleto/entities, src/boleto/enums).
-- Columns that the database or TypeORM fills (the id, the dates of creation, change and deletion) and
-- the joined rows of other entities are left to the engine. Amounts are in cents; a column that a
-- handler may leave undefined is an `Option`.
use api_payment.Common.{ℕ, String, Option, List}
use api_payment.Platform.Dates.{Date}
use api_payment.Platform.Financial.{FinancialProvider}

pub data BoletoStatus : Type 0 where
  failure processing pending approved paid expired cancelled overdue registered : BoletoStatus

pub data BoletoType : Type 0 where
  deposit levy : BoletoType

pub data InterestType : Type 0 where
  fixed_amount percent : InterestType

pub data FineType : Type 0 where
  fixed_amount percent : FineType

pub data DiscountType : Type 0 where
  fixed_amount_until_limit_date fixed_percent_until_limit_date : DiscountType

-- The address of a payer.
pub record PayerAddress : Type 0 where
  pub zip_code : String
  pub address_line : String
  pub neighborhood : String
  pub city : String
  pub state : String

-- Who is to pay a boleto.
pub record BoletoPayer : Type 0 where
  pub name : String
  pub trade_name : Option String
  pub document : String
  pub address : Option PayerAddress

-- One entry of `payments`.
pub record BoletoPaid : Type 0 where
  pub id : String
  pub amount : ℕ
  pub payment_channel : String
  pub paid_out_date : String

-- A boleto that was issued.
pub record Boleto : Type 0 where
  pub amount : Option ℕ
  pub currency : String
  pub description : Option String
  pub provider_slug : FinancialProvider
  pub client_id : String
  pub account_id : Option String
  pub alias : Option String
  pub type : BoletoType
  pub status : BoletoStatus
  pub due_date : Date
  pub close_payment : Option Date
  pub document_number : String
  pub account_number : String
  pub account_branch : String
  pub payer : BoletoPayer
  pub interest_start_date : Option Date
  pub interest_value : Option ℕ
  pub interest_type : Option InterestType
  pub fine_start_date : Option Date
  pub fine_value : Option ℕ
  pub fine_type : Option FineType
  pub discount_limit_date : Option Date
  pub discount_value : Option ℕ
  pub discount_type : Option DiscountType
  pub authentication_code : Option String
  pub barcode : Option String
  pub digitable : Option String
  pub our_number : Option String
  pub payments : Option (List BoletoPaid)
  pub cancel_reason : Option String
