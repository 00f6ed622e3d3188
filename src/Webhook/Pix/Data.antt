-- ===== src/Webhook/Pix/Data.antt =====
-- The data of the PIX webhooks (src/webhook-processor/interfaces/pix-webhook.interface.ts).
use api_payment.Common.{ℕ, String, Bool, Option}
use api_payment.Webhook.Payload.{AmountData, ParticipantData}

-- The channels of the three kinds of events.
pub record PixCashInChannelData : Type 0 where
  pub name : Option String
  pub end2_end_id : Option String
  pub receiver_reconciliation_id : Option String
  pub pix_initialization_type : Option String
  pub pix_payment_priority : Option String
  pub pix_payment_priority_type : Option String
  pub pix_payment_purpose : Option String
  pub sender : Option ParticipantData

pub record AddressingKeyData : Type 0 where
  pub value : Option String
  pub type : Option String

pub record PixCashInReceivedData : Type 0 where
  pub authentication_code : String
  pub amount : Option AmountData
  pub description : Option String
  pub addressing_key : Option AddressingKeyData
  pub recipient : Option ParticipantData
  pub channel : Option PixCashInChannelData
  pub created_at : Option String

-- The handler of this event reads only the first three and the recipient.
pub record PixCashInClearedData : Type 0 where
  pub authentication_code : Option String
  pub amount : Option AmountData
  pub description : Option String
  pub recipient : Option ParticipantData
  pub channel : Option PixCashInChannelData

pub record PixCashOutChannelData : Type 0 where
  pub name : Option String
  pub end_to_end_id : Option String
  pub initialization_type : Option String
  pub payment_purpose : Option String
  pub payment_priority : Option String
  pub payment_priority_type : Option String
  pub is_pix_open_banking : Option Bool
  pub is_internal : Option Bool
  pub refusal_reason : Option String
  pub destination : Option ParticipantData

pub record PixCashOutData : Type 0 where
  pub authentication_code : String
  pub amount : Option AmountData
  pub description : Option String
  pub sender : Option ParticipantData
  pub channel : Option PixCashOutChannelData
  pub payment_date : Option String
  pub is_refund : Option Bool
  pub end_to_end_id_original : Option String

pub record PixRefundChannelData : Type 0 where
  pub name : Option String
  pub end2_end_id : Option String
  pub end2_end_id_original : Option String
  pub refund_reason : Option String
  pub error_code : Option String
  pub error_reason : Option String
  pub sender : Option ParticipantData

pub record PixRefundData : Type 0 where
  pub authentication_code : String
  pub amount : Option AmountData
  pub description : Option String
  pub recipient : Option ParticipantData
  pub channel : Option PixRefundChannelData
  pub created_at : Option String

pub record PixQrCodeRecipientData : Type 0 where
  pub type : String
  pub document_number : String
  pub name : Option String

-- `type` is 'STATIC' or 'DYNAMIC'.
pub record PixQrCodeCreatedData : Type 0 where
  pub partner_key : String
  pub conciliation_id : String
  pub addressing_key_type : String
  pub addressing_key_value : String
  pub amount : ℕ
  pub single_payment : Bool
  pub type : String
  pub purpose : String
  pub encoded_value : String
  pub change_amount_type : Option String
  pub format : String
  pub created_at : String
  pub expires_at : Option String
  pub payment_date_limit : Option String
  pub recipient : PixQrCodeRecipientData
