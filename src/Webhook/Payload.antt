-- ===== src/Webhook/Payload.antt =====
-- The payload of a webhook (src/webhook-processor/interfaces/webhook-base.interface.ts), and its copy
-- for the event log (src/webhook-processor/helpers/payload.helper.ts). A member that the handlers
-- read through `?.` or test is an `Option`, also where the interface does not say so.
use api_payment.Common.{ℕ, String, Bool, Option}

-- The values that `JSON.parse` gives. `undefined` does not occur in them.
mutual
  pub data Json : Type 0 where
    null : Json
    boolean : Bool → Json
    number : ℕ → Json
    text : String → Json
    array : Items → Json
    object : Members → Json

  pub data Items : Type 0 where
    nil : Items
    cons : Json → Items → Items

  pub data Members : Type 0 where
    end : Members
    member : String → Json → Members → Members

-- `toPayload`: an array is wrapped as `items`, any other value that is no object as `value`.
unfoldable pub to_payload : Json → Json
to_payload (object members) = object members
to_payload (array items) = object (member "items" (array items) end)
to_payload other = object (member "value" other end)

pub data Context : Type 0 where
  pix boleto payment : Context

-- The event as received is `raw`; the other fields are what the code reads of it.
pub record WebhookPayload (T : Type 0) : Type 0 where
  pub raw : Json
  pub entity_id : String
  pub company_key : String
  pub idempotency_key : Option String
  pub context : Context
  pub name : String
  pub timestamp : String
  pub correlation_id : Option String
  pub version : Option String
  pub metadata : Option Json
  pub event_data : T

pub record AmountData : Type 0 where
  pub value : ℕ
  pub currency : Option String

pub record DocumentData : Type 0 where
  pub value : Option String
  pub type : Option String

pub record BankData : Type 0 where
  pub ispb : Option String
  pub code : Option String
  pub name : Option String

pub record AccountData : Type 0 where
  pub branch : Option String
  pub number : Option String
  pub type : Option String
  pub bank : Option BankData
  pub status : Option String

pub record ParticipantData : Type 0 where
  pub document : Option DocumentData
  pub type : Option String
  pub name : Option String
  pub status : Option String
  pub account : Option AccountData
