-- ===== src/Platform/Financial.antt =====
-- The parts that the financial entities share (src/common/entities, src/common/enums).
use api_payment.Common.{String, Option}

pub data FinancialProvider : Type 0 where
  hiperbanco : FinancialProvider

-- Who pays.
pub record PaymentSender : Type 0 where
  pub name : Option String
  pub trade_name : Option String
  pub type : Option String
  pub document_type : Option String
  pub document_number : Option String
  pub bank_name : Option String
  pub bank_ispb : Option String
  pub bank_compe : Option String
  pub account_branch : Option String
  pub account_number : Option String
  pub account_type : Option String

-- Who is paid.
pub record PaymentRecipient : Type 0 where
  pub name : Option String
  pub document_type : Option String
  pub document_number : Option String
  pub type : Option String
  pub bank_name : Option String
  pub bank_ispb : Option String
  pub bank_compe : Option String
  pub account_branch : Option String
  pub account_number : Option String
  pub account_type : Option String
  pub status : Option String
  pub account_status : Option String
