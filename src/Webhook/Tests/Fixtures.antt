-- ===== src/Webhook/Tests/Fixtures.antt =====
-- The data of the examples: a database in memory with one account, payloads and parsers of dates.
use api_payment.Common.Exec.{ok_injective}
use api_payment.Webhook.EventLog.{event_name_of}
use api_payment.Webhook.Steps.Check.{IsAt, truthy_text-value}
use api_payment.Common.{ap, sym, ◌∙◌, String, true, Option, none, some, [], ◌∷◌}
use api_payment.Platform.{Row}
use api_payment.Platform.Dates.{DateParsers}
use api_payment.Platform.Financial.{PaymentSender, PaymentRecipient}
use api_payment.Platform.Memory.{memory}
use api_payment.Database.{Db}
use api_payment.Account.Entity.{Account, AccountStatus, AccountType}
use api_payment.Webhook.Event.{WebhookEvent, value}
use api_payment.Webhook.EventLog.Entity.{WebhookEventLog}
use api_payment.Webhook.Payload.{null, Context, WebhookPayload, AmountData, ParticipantData}

-- Every date is read as the same day.
abbrev pub clock : DateParsers
clock = record {
  new_date = λ s. some 20000;
  parse_minutes = λ s. some 20000;
  local_date = λ y m d. 20000;
}

abbrev pub account : Row Account
account = record {
  id = "account";
  fields = record {
    external_id = "external";
    client_id = "client";
    onboarding_id = none;
    onboarding = none;
    status = AccountStatus.active;
    branch = "0001";
    number = "12345";
    type = AccountType.main;
  };
}

abbrev pub database : Db memory
database = record {
  accounts = account ∷ [];
  transactions = [];
  event_logs = [];
  pix_cash_ins = [];
  pix_refunds = [];
  pix_transfers = [];
  pix_qr_codes = [];
  boletos = [];
  bill_payments = [];
  ted_transfers = [];
  ted_cash_ins = [];
  ted_refunds = [];
}

abbrev pub payload : {T : Type 0} → String → T → WebhookPayload T
payload name it = record {
  raw = null;
  entity_id = "entity";
  company_key = "company";
  idempotency_key = none;
  context = Context.payment;
  name = name;
  timestamp = "2025-01-02T03:04:05Z";
  correlation_id = some "correlation";
  version = none;
  metadata = none;
  event_data = it;
}

abbrev pub amount : Option AmountData
amount = some (record { value = 1500; currency = some "BRL" })

-- The line that the event `e` of the payment "code" left in the log.
abbrev pub log_line : WebhookEvent → WebhookEventLog
log_line e = record {
  authentication_code = "code";
  entity_type = "PAYMENT";
  entity_id = some "entity";
  event_name = value e;
  was_processed = true;
  skip_reason = none;
  payload = none;
  provider_timestamp = none;
  client_id = "client";
}

-- A database whose log says that the payment "code" is at `e`.
abbrev pub database_at : WebhookEvent → Db memory
database_at e = record database { event_logs = record { id = "line"; fields = log_line e } ∷ [] }

abbrev pub recipient : Option ParticipantData
recipient = some (record {
  document = none;
  type = none;
  name = some "Ana";
  status = none;
  account = some (record {
    branch = some "0001";
    number = some "12345";
    type = none;
    bank = none;
    status = none;
  });
})

abbrev pub no_sender : PaymentSender
no_sender = record {
  name = none;
  trade_name = none;
  type = none;
  document_type = none;
  document_number = none;
  bank_name = none;
  bank_ispb = none;
  bank_compe = none;
  account_branch = none;
  account_number = none;
  account_type = none;
}

abbrev pub no_recipient : PaymentRecipient
no_recipient = record {
  name = none;
  document_type = none;
  document_number = none;
  type = none;
  bank_name = none;
  bank_ispb = none;
  bank_compe = none;
  account_branch = none;
  account_number = none;
  account_type = none;
  status = none;
  account_status = none;
}

-- The payment of such a database is at its event.
pub database_at-IsAt : (e : WebhookEvent) → IsAt memory "code" e (database_at e)
database_at-IsAt e log found =
    ap event_name_of
      (sym (ok_injective (some (record { id = "line"; fields = log_line e })) log found))
    ∙ truthy_text-value e
