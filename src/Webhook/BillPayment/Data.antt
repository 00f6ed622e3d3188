-- ===== src/Webhook/BillPayment/Data.antt =====
-- The data of the bill payment webhooks
-- (src/webhook-processor/interfaces/bill-payment-webhook.interface.ts), and what their handlers do to
-- numbers and texts: `String(n)` and `replace(/[.\-/]/g, '')`.
use Prim.Native.Char.{Char, code}
use api_payment.Common.{◌≡◌, refl, ℕ, String, Bool, ◌||◌, Option, ◌==◌, if◌then◌else◌}
use api_payment.Webhook.Payload.{AmountData, AccountData, DocumentData, ParticipantData}

pub record BillPaymentErrorData : Type 0 where
  pub code : String
  pub message : String

pub record BillPaymentChargesData : Type 0 where
  pub interest_amount_calculated : Option AmountData
  pub fine_amount_calculated : Option AmountData
  pub discount_amount : Option AmountData

pub record BillPaymentWebhookData : Type 0 where
  pub authentication_code : String
  pub payment_status : Option String
  pub payment_type : Option String
  pub transaction_id : Option ℕ
  pub confirmation_transaction_id : Option ℕ
  pub confirmed_at : Option String
  pub settle_date : Option String
  pub payment_date : Option String
  pub updated_at : Option String
  pub created_at : Option String
  pub due_date : Option String
  pub assignor : Option String
  pub type : Option String
  pub recipient : Option ParticipantData
  pub account : Option AccountData
  pub digitable : Option String
  pub description : Option String
  pub amount : Option AmountData
  pub original_amount : Option AmountData
  pub charges : Option BillPaymentChargesData
  pub error : Option BillPaymentErrorData
  pub reason : Option String
  pub document : Option DocumentData

abbrev is_separator : Char → Bool
is_separator c = code c == b'.' || code c == b'-' || code c == b'/'

-- `s.replace(/[.\-/]/g, '')`
unfoldable pub digits_only : String → String
digits_only String.[] = ""
digits_only (String.◌∷◌ c s) =
    let rest = digits_only s in if is_separator c then rest else String.◌∷◌ c rest

digits_only_example : digits_only "12.345.678/0001-95" ≡ "12345678000195"
unfolding digits_only
digits_only_example = refl
