-- ===== src/Transaction/Service/Laws.antt =====
-- The creation of transactions (src/transaction/transaction.service.ts, `createFromWebhook`).
use api_payment.Common.{◌≡◌, ◌≢◌, refl, ap, eq_refl, Option, none, some, ◌⊎◌, inl, inr}
use api_payment.Common.Exec.{Result, ok, throw, Exception, continue}
use api_payment.Platform.{Row, TypeOrm, IsLawful}
use api_payment.Database.{Db}
use api_payment.Transaction.Entity.{Transaction}
use api_payment.Transaction.Service.{
  CreateTransactionFromWebhook, new_transaction, has_code, find_by_authentication_code,
  create_unless, create_from_webhook,
}

module _ (o : TypeOrm) (c : CreateTransactionFromWebhook) where
  skipped :
      (found : Result (Option (Row Transaction))) (db : Db o)
      → found ≢ ok none
      → (continue found (create_unless o c) db).1 ≡ db
  unfolding create_unless
  skipped (ok none) db h = absurd (h refl)
  skipped (ok (some row)) db h = refl
  skipped (throw x) db h = refl

  module _ (laws : IsLawful o) where
    -- The call threw, and no table but that of the transactions has changed.
    abbrev HasFailed : Db o → Result (Row Transaction) × Db o → Type 0
    HasFailed db run =
        ((x : Exception) × (run.0 ≡ throw x))
        × ((t : o.Table Transaction) × (run.1 ≡ record db { transactions = t }))

    inserted :
        (stored : Result (Row Transaction) × o.Table Transaction) (db : Db o)
        → o.insert _ (new_transaction c) db.transactions ≡ stored
        → HasFailed db (stored.0, record db { transactions = stored.1 })
          ⊎ (o.find_one _ (has_code c.authentication_code) stored.1 ≢ ok none)
    inserted (ok row, t) db stored = inr (
        laws.insert_found _ (has_code c.authentication_code) (new_transaction c) _ t row stored
          (simp eq_refl))
    inserted (throw x, t) db stored = inl ((x, refl), (t, refl))

    created :
        (found : Result (Option (Row Transaction))) (db : Db o)
        → let run = continue found (create_unless o c) db in
          (run.1 ≡ db)
          ⊎ (HasFailed db run
              ⊎ (o.find_one _ (has_code c.authentication_code) run.1.transactions ≢ ok none))
    unfolding create_unless
    created (ok none) db = inr (inserted _ db refl)
    created (ok (some row)) db = inl refl
    created (throw x) db = inr (inl ((x, refl), (db.transactions, refl)))

    -- Creating the transaction of a payment again writes nothing, unless the first call threw before it
    -- had saved the transaction; then it left every other table as it was.
    pub create_from_webhook-once :
        (db : Db o)
        → let run = create_from_webhook o c db in
          ((create_from_webhook o c run.1).1 ≡ run.1)
          ⊎ (((x : Exception) × (run.0 ≡ throw x))
              × ((t : o.Table Transaction) × (run.1 ≡ record db { transactions = t })))
    unfolding create_from_webhook find_by_authentication_code
    create_from_webhook-once db =
        elim (created (o.find_one _ (has_code c.authentication_code) db.transactions) db) [
          | inl same ↦ inl (ap (λ db. (create_from_webhook o c db).1) same)
          | inr (inl failed) ↦ inr failed
          | inr (inr stored) ↦ inl (skipped _ _ stored)
        ]
