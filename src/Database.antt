-- ===== src/Database.antt =====
-- The database of the program: one table for each entity, and the repositories through which the
-- services read and write them. A write of one table leaves the others alone.
use api_payment.Common.{Bool, Option}
use api_payment.Common.Exec.{Exec}
use api_payment.Platform.{Row, TypeOrm}
use api_payment.Account.Entity.{Account}
use api_payment.BillPayment.Entities.{BillPayment}
use api_payment.Boleto.Entities.{Boleto}
use api_payment.Pix.Entities.{PixCashIn, PixQrCode, PixRefund, PixTransfer}
use api_payment.Ted.Entities.{TedCashIn, TedRefund, TedTransfer}
use api_payment.Transaction.Entity.{Transaction}
use api_payment.Webhook.EventLog.Entity.{WebhookEventLog}

pub record Db (o : TypeOrm) : Type 0 where
  pub accounts : o.Table Account
  pub transactions : o.Table Transaction
  pub event_logs : o.Table WebhookEventLog
  pub pix_cash_ins : o.Table PixCashIn
  pub pix_refunds : o.Table PixRefund
  pub pix_transfers : o.Table PixTransfer
  pub pix_qr_codes : o.Table PixQrCode
  pub boletos : o.Table Boleto
  pub bill_payments : o.Table BillPayment
  pub ted_transfers : o.Table TedTransfer
  pub ted_cash_ins : o.Table TedCashIn
  pub ted_refunds : o.Table TedRefund

-- `Repository<E>`
pub record Repository (o : TypeOrm) (E : Type 0) : Type 0 where
  pub table : Db o → o.Table E
  pub with_table : o.Table E → Db o → Db o

module _ (o : TypeOrm) {E : Type 0} (r : Repository o E) where
  abbrev pub find_one : (E → Bool) → Exec (Db o) (Option (Row E))
  find_one p db = (o.find_one E p (r.table db), db)

  abbrev pub find_last : (E → Bool) → Exec (Db o) (Option (Row E))
  find_last p db = (o.find_last E p (r.table db), db)

  -- `save(create(fields))`
  abbrev pub insert : E → Exec (Db o) (Row E)
  insert e db = ((o.insert E e (r.table db)).0, r.with_table (o.insert E e (r.table db)).1 db)

  -- `save` of a row that was found
  abbrev pub update : Row E → Exec (Db o) (Row E)
  update row db = ((o.update E row (r.table db)).0, r.with_table (o.update E row (r.table db)).1 db)

module _ (o : TypeOrm) where
  abbrev pub account_repository : Repository o Account
  account_repository = record {
    table = λ db. db.accounts;
    with_table = λ t db. record db { accounts = t };
  }

  abbrev pub transaction_repository : Repository o Transaction
  transaction_repository = record {
    table = λ db. db.transactions;
    with_table = λ t db. record db { transactions = t };
  }

  abbrev pub event_log_repository : Repository o WebhookEventLog
  event_log_repository = record {
    table = λ db. db.event_logs;
    with_table = λ t db. record db { event_logs = t };
  }

  abbrev pub pix_cash_in_repository : Repository o PixCashIn
  pix_cash_in_repository = record {
    table = λ db. db.pix_cash_ins;
    with_table = λ t db. record db { pix_cash_ins = t };
  }

  abbrev pub pix_refund_repository : Repository o PixRefund
  pix_refund_repository = record {
    table = λ db. db.pix_refunds;
    with_table = λ t db. record db { pix_refunds = t };
  }

  abbrev pub pix_transfer_repository : Repository o PixTransfer
  pix_transfer_repository = record {
    table = λ db. db.pix_transfers;
    with_table = λ t db. record db { pix_transfers = t };
  }

  abbrev pub pix_qr_code_repository : Repository o PixQrCode
  pix_qr_code_repository = record {
    table = λ db. db.pix_qr_codes;
    with_table = λ t db. record db { pix_qr_codes = t };
  }

  abbrev pub boleto_repository : Repository o Boleto
  boleto_repository = record {
    table = λ db. db.boletos;
    with_table = λ t db. record db { boletos = t };
  }

  abbrev pub bill_payment_repository : Repository o BillPayment
  bill_payment_repository = record {
    table = λ db. db.bill_payments;
    with_table = λ t db. record db { bill_payments = t };
  }

  abbrev pub ted_transfer_repository : Repository o TedTransfer
  ted_transfer_repository = record {
    table = λ db. db.ted_transfers;
    with_table = λ t db. record db { ted_transfers = t };
  }

  abbrev pub ted_cash_in_repository : Repository o TedCashIn
  ted_cash_in_repository = record {
    table = λ db. db.ted_cash_ins;
    with_table = λ t db. record db { ted_cash_ins = t };
  }

  abbrev pub ted_refund_repository : Repository o TedRefund
  ted_refund_repository = record {
    table = λ db. db.ted_refunds;
    with_table = λ t db. record db { ted_refunds = t };
  }
