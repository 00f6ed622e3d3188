-- ===== src/Webhook/Pix/QrCode.antt =====
-- A PIX QR code was created (src/webhook-processor/services/pix-webhook.service.ts,
-- `handleQrCodeCreated`, and src/webhook-processor/helpers/pix-key-type.helper.ts).
use api_payment.Common.{
  String, ◌≡◌, Bool, Option, none, some, List, str_eq as ◌==◌, if◌then◌else◌, arith,
}
use api_payment.Common.Exec.{Exec, pure, lift, ◌>>=◌, for_each}
use api_payment.Platform.{Row, TypeOrm}
use api_payment.Platform.Dates.{Date, DateParsers}
use api_payment.Platform.Financial.{FinancialProvider}
use api_payment.Database.{Db, find_one, insert, update, pix_qr_code_repository}
use api_payment.Account.{find_by_onboarding_document}
use api_payment.Account.Entity.{Account}
use api_payment.Pix.Entities.{
  PixQrCode, PixQrCodeStatus, PixQrCodeType, PixKeyType, cpf, cnpj, email, phone, evp,
}
use api_payment.Webhook.Event.{pix_qrcode_was_created}
use api_payment.Webhook.EventLog.{log_event}
use api_payment.Webhook.Payload.{WebhookPayload}
use api_payment.Webhook.Pix.Data.{PixQrCodeCreatedData}
use api_payment.Webhook.Steps.{
  parse_financial_provider, parse_optional, is_text, log_processed, if_valid,
}

-- `resolvePixKeyType`
unfoldable pub resolve_pix_key_type : String → PixKeyType
resolve_pix_key_type value =
    if value == "CPF"
    then cpf
    else if value == "CNPJ"
    then cnpj
    else if value == "EMAIL"
    then email
    else if value == "PHONE"
    then phone
    else evp

-- `data.type === 'STATIC' ? … : …`
abbrev qr_code_type : String → PixQrCodeType
qr_code_type type = if type == "STATIC" then PixQrCodeType.static else PixQrCodeType.dynamic

-- The object that `pixQrCodeRepository.create` is given; `currency` and `category_code` are the defaults
-- of their columns.
unfoldable pub new_qr_code :
    PixQrCodeCreatedData → FinancialProvider → Row Account → Option Date → PixQrCode
unfolding resolve_pix_key_type
new_qr_code it provider account expires_at = record {
  amount = some it.amount;
  currency = "BRL";
  description = none;
  provider_slug = provider;
  client_id = account.fields.client_id;
  account_id = some account.id;
  encoded_value = it.encoded_value;
  type = qr_code_type it.type;
  status = PixQrCodeStatus.created;
  conciliation_id = some it.conciliation_id;
  addressing_key_type = resolve_pix_key_type it.addressing_key_type;
  addressing_key_value = it.addressing_key_value;
  recipient_name = it.recipient.name;
  category_code = some "0000";
  location_city = none;
  location_zip_code = none;
  single_payment = it.single_payment;
  expires_at = expires_at;
  change_amount_type = it.change_amount_type;
  payer = none;
}

-- The assignments to a stored QR code; the date is kept if the event has none.
unfoldable pub qr_code_after : PixQrCodeCreatedData → Option Date → PixQrCode → PixQrCode
qr_code_after it none q = record q {
  encoded_value = it.encoded_value;
  status = PixQrCodeStatus.created;
}
qr_code_after it (some date) q = record q {
  encoded_value = it.encoded_value;
  status = PixQrCodeStatus.created;
  expires_at = some date;
}

module _ (o : TypeOrm) (d : DateParsers) where
  log_qr_code : WebhookPayload PixQrCodeCreatedData → String → String → Exec (Db o) (Unit {0})
  log_qr_code event client_id id =
      log_processed o d event.event_data.conciliation_id "PIX_QR_CODE" id pix_qrcode_was_created
        event client_id

  create_qr_code :
      FinancialProvider
      → WebhookPayload PixQrCodeCreatedData
      → String
      → Option (Row Account)
      → Exec (Db o) (Unit {0})
  unfolding log_qr_code
  create_qr_code provider event client_id none = pure tt
  create_qr_code provider event client_id (some account) = do
    expires_at ← lift (parse_optional d event.event_data.expires_at)
    saved ←
        insert o (pix_qr_code_repository o)
          (new_qr_code event.event_data provider account expires_at)
    log_qr_code event client_id saved.id

  write_qr_code :
      FinancialProvider
      → WebhookPayload PixQrCodeCreatedData
      → String
      → Option (Row PixQrCode)
      → Exec (Db o) (Unit {0})
  unfolding log_qr_code create_qr_code
  write_qr_code provider event client_id (some row) = do
    expires_at ← lift (parse_optional d event.event_data.expires_at)
    saved ←
        update o (pix_qr_code_repository o)
          (record row { fields = qr_code_after event.event_data expires_at row.fields })
    log_qr_code event client_id row.id
  write_qr_code provider event client_id none = do
    account ← find_by_onboarding_document o event.event_data.recipient.document_number
    create_qr_code provider event client_id account

  -- One round of the loop of `handleQrCodeCreated`.
  unfoldable pub qr_code_created :
      FinancialProvider → String → WebhookPayload PixQrCodeCreatedData → Exec (Db o) (Unit {0})
  unfolding write_qr_code
  qr_code_created provider client_id event = do
    row ←
        find_one o (pix_qr_code_repository o)
          (λ q. is_text event.event_data.conciliation_id q.conciliation_id)
    write_qr_code provider event client_id row

  unfoldable pub handle_qr_code_created :
      List (WebhookPayload PixQrCodeCreatedData)
      → (client_id provider_slug : String) → Bool
      → Exec (Db o) (Unit {0})
  unfolding qr_code_created
  handle_qr_code_created events client_id provider_slug valid_public_key = do
    provider ← lift (parse_financial_provider provider_slug)
    if_valid valid_public_key (for_each (qr_code_created provider client_id) events)

  -- The event of a QR code writes the QR codes and the log and nothing else: a QR code has no
  -- transaction.
  pub qr_code_created-frame :
      (provider : FinancialProvider) (client_id : String)
      (event : WebhookPayload PixQrCodeCreatedData) (db : Db o)
      → let after = (qr_code_created provider client_id event db).1 in
        after ≡ record db { pix_qr_codes = after.pix_qr_codes; event_logs = after.event_logs }
  unfolding qr_code_created write_qr_code create_qr_code log_qr_code log_processed log_event
      find_by_onboarding_document
  qr_code_created-frame provider client_id event db = ground arith
