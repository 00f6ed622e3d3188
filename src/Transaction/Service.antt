-- ===== src/Transaction/Service.antt =====
-- The transaction service as the webhook services call it (src/transaction/transaction.service.ts,
-- src/transaction/repositories/transaction.repository.ts,
-- src/transaction/interfaces/transaction-webhook.interface.ts,
-- src/common/helpers/apply-defined.helper.ts).
pub mod Laws
use api_payment.Common.{ℕ, String, Bool, Option, none, some, defined_or, or_text, str_eq as ◌==◌}
use api_payment.Common.Exec.{Exec, pure, ◌>>=◌}
use api_payment.Platform.{Row, TypeOrm}
use api_payment.Platform.Dates.{Date}
use api_payment.Database.{Db, find_one, insert, update, transaction_repository}
use api_payment.Transaction.Status.{TransactionStatus, TransactionType}
use api_payment.Transaction.Entity.{Transaction}

pub record CreateTransactionFromWebhook : Type 0 where
  pub authentication_code : String
  pub correlation_id : Option String
  pub idempotency_key : Option String
  pub entity_id : Option String
  pub type : TransactionType
  pub status : TransactionStatus
  pub amount : Option ℕ
  pub currency : Option String
  pub description : Option String
  pub account_id : Option String
  pub client_id : String
  pub provider_timestamp : Option Date
  pub pix_cash_in_id : Option String
  pub pix_transfer_id : Option String
  pub pix_refund_id : Option String
  pub pix_qr_code_id : Option String
  pub boleto_id : Option String
  pub bill_payment_id : Option String
  pub ted_transfer_id : Option String
  pub ted_cash_in_id : Option String
  pub ted_refund_id : Option String

pub record UpdateTransactionFromWebhook : Type 0 where
  pub authentication_code : String
  pub status : TransactionStatus
  pub correlation_id : Option String
  pub idempotency_key : Option String
  pub entity_id : Option String
  pub description : Option String
  pub provider_timestamp : Option Date

-- `{ ...data, currency: data.currency || 'BRL' }`
abbrev pub new_transaction : CreateTransactionFromWebhook → Transaction
new_transaction c = record {
  authentication_code = c.authentication_code;
  correlation_id = c.correlation_id;
  idempotency_key = c.idempotency_key;
  entity_id = c.entity_id;
  type = c.type;
  status = c.status;
  amount = c.amount;
  currency = or_text c.currency "BRL";
  description = c.description;
  pix_cash_in_id = c.pix_cash_in_id;
  pix_transfer_id = c.pix_transfer_id;
  pix_refund_id = c.pix_refund_id;
  boleto_id = c.boleto_id;
  bill_payment_id = c.bill_payment_id;
  pix_qr_code_id = c.pix_qr_code_id;
  ted_transfer_id = c.ted_transfer_id;
  ted_cash_in_id = c.ted_cash_in_id;
  ted_refund_id = c.ted_refund_id;
  account_id = c.account_id;
  client_id = c.client_id;
  provider_timestamp = c.provider_timestamp;
}

-- `applyDefined` on the five keys that an update may carry.
abbrev pub apply_defined : Transaction → UpdateTransactionFromWebhook → Transaction
apply_defined t u = record t {
  correlation_id = defined_or u.correlation_id t.correlation_id;
  idempotency_key = defined_or u.idempotency_key t.idempotency_key;
  entity_id = defined_or u.entity_id t.entity_id;
  description = defined_or u.description t.description;
  provider_timestamp = defined_or u.provider_timestamp t.provider_timestamp;
}

abbrev pub has_code : String → Transaction → Bool
has_code code t = t.authentication_code == code

module _ (o : TypeOrm) where
  -- `findByAuthenticationCode`
  unfoldable pub find_by_authentication_code : String → Exec (Db o) (Option (Row Transaction))
  find_by_authentication_code code = find_one o (transaction_repository o) (has_code code)

  create_unless :
      CreateTransactionFromWebhook → Option (Row Transaction) → Exec (Db o) (Row Transaction)
  create_unless c (some existing) = pure existing
  create_unless c none = insert o (transaction_repository o) (new_transaction c)

  -- `createFromWebhook`
  unfoldable pub create_from_webhook : CreateTransactionFromWebhook → Exec (Db o) (Row Transaction)
  unfolding create_unless find_by_authentication_code
  create_from_webhook c = do
    existing ← find_by_authentication_code c.authentication_code
    create_unless c existing

  save_with :
      (Transaction → Transaction)
      → Option (Row Transaction)
      → Exec (Db o) (Option (Row Transaction))
  save_with change none = pure none
  save_with change (some row) = do
    updated ← update o (transaction_repository o) (record row { fields = change row.fields })
    pure (some updated)

  -- `updateStatus`
  unfoldable pub update_status : String → TransactionStatus → Exec (Db o) (Option (Row Transaction))
  unfolding save_with find_by_authentication_code
  update_status code status = do
    transaction ← find_by_authentication_code code
    save_with (λ t. record t { status = status }) transaction

  -- `updateFromWebhook`
  unfoldable pub update_from_webhook :
      UpdateTransactionFromWebhook → Exec (Db o) (Option (Row Transaction))
  unfolding save_with find_by_authentication_code
  update_from_webhook u = do
    transaction ← find_by_authentication_code u.authentication_code
    save_with (λ t. apply_defined (record t { status = u.status }) u) transaction
