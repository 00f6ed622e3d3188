-- ===== src/Webhook/Ted/Data.antt =====
-- The data of the TED webhooks (src/webhook-processor/interfaces/ted-webhook.interface.ts).
use api_payment.Common.{String, Option}
use api_payment.Webhook.Payload.{AmountData}

pub record TedBankData : Type 0 where
  pub ispb : Option String
  pub name : Option String
  pub compe : Option String

pub record TedAccountData : Type 0 where
  pub branch : Option String
  pub number : Option String
  pub type : Option String
  pub bank : Option TedBankData

-- A sender or a recipient. The recipient of a TED that is received has no bank, and the parties of a
-- refund have no account.
pub record TedParticipantData : Type 0 where
  pub document : Option String
  pub name : Option String
  pub account : Option TedAccountData

pub record TedCashOutData : Type 0 where
  pub authentication_code : String
  pub amount : Option AmountData
  pub description : Option String
  pub status : String
  pub channel : Option String
  pub payment_date : Option String
  pub refusal_reason : Option String
  pub sender : Option TedParticipantData
  pub recipient : Option TedParticipantData
  pub created_at : Option String
  pub updated_at : Option String

pub record TedCashInData : Type 0 where
  pub authentication_code : String
  pub amount : Option AmountData
  pub description : Option String
  pub channel : Option String
  pub sender : Option TedParticipantData
  pub recipient : Option TedParticipantData
  pub created_at : Option String

pub record TedRefundData : Type 0 where
  pub authentication_code : String
  pub original_authentication_code : Option String
  pub amount : Option AmountData
  pub description : Option String
  pub refund_reason : Option String
  pub error_code : Option String
  pub error_reason : Option String
  pub sender : Option TedParticipantData
  pub recipient : Option TedParticipantData
  pub created_at : Option String
