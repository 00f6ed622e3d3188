-- ===== src/Webhook/Ted/Refund/Sequence.antt =====
-- The events of a TED refund, delivered again (`handleRefundReceived`, `handleRefundCleared`).
use api_payment.Common.{
  ◌≡◌, ◌⊎◌, refl, ◌∙◌, eq_refl, ap, Bool, Option, none, some, truthy, arith, String,
}
use api_payment.Common.Exec.{ok, throw, Exception, continue-keeps}
use api_payment.Platform.{Row, TypeOrm, IsLawful}
use api_payment.Platform.Dates.{DateParsers}
use api_payment.Platform.Financial.{FinancialProvider}
use api_payment.Database.{Db, ted_refund_repository}
use api_payment.Ted.Entities.{TedRefund}
use api_payment.Webhook.Event.{ted_refund_was_received, ted_refund_was_cleared}
use api_payment.Webhook.Payload.{WebhookPayload}
use api_payment.Webhook.Ted.Data.{TedRefundData}
use api_payment.Webhook.Steps.{create_transaction, parse_optional}
use api_payment.Webhook.Steps.Frame.{create_transaction-frame, log_processed-frame}
use api_payment.Webhook.Steps.Once.{IsOnce, once-again, once-continue, once-read, insert-once}
use api_payment.Webhook.Steps.Again.{process_if_found-again}
use api_payment.Webhook.Ted.Refund.{
  new_refund, has_code, related, refund_saved, receive_refund, refund_received, cleared,
  cleared_code, clear_code, refund_cleared,
}

module _ (o : TypeOrm) where
  -- The look-ups write nothing.
  related-state : (original : Option String) (db : Db o) → (related o original db).1 ≡ db
  unfolding related
  related-state none db = refl
  related-state (some original) db = ground arith

module _ (o : TypeOrm) (d : DateParsers) (client_id : String)
    (event : WebhookPayload TedRefundData) where
  -- What follows the creation leaves the table of refunds alone.
  refund_saved-ted_refunds :
      (saved : Row TedRefund) (db : Db o)
      → (refund_saved o d event client_id saved db).1.ted_refunds ≡ db.ted_refunds
  unfolding refund_saved
  refund_saved-ted_refunds saved db =
      continue-keeps (λ s. s.ted_refunds ≡ db.ted_refunds) (create_transaction o d _ event db) _
        (ap (λ db. db.ted_refunds) (create_transaction-frame o d _ event db))
        λ created still.
          ap (λ db. db.ted_refunds)
            (log_processed-frame o d event.event_data.authentication_code "TED_REFUND" saved.id
              client_id ted_refund_was_received event (create_transaction o d _ event db).1)
          ∙ still

  module _ (laws : IsLawful o) (provider : FinancialProvider) where
    abbrev fits : TedRefund → Bool
    fits = has_code event.event_data.authentication_code

    receive_refund-once :
        (db : Db o)
        → IsOnce o
            (ted_refund_repository o)
            fits
            db
            (receive_refund o d provider event client_id db)
    unfolding receive_refund new_refund
    receive_refund-once db =
        once-read o (ted_refund_repository o) fits (λ db. refl)
          (related o (truthy event.event_data.original_authentication_code) db) _ db
          (related-state o _ db)
          λ ids.
            once-continue o (ted_refund_repository o) fits (λ db. refl)
              (parse_optional d event.event_data.created_at) _ db
              λ created_at.
                insert-once o (ted_refund_repository o) fits laws (λ t db. refl)
                  (new_refund event provider client_id ids.0 ids.1 created_at)
                  (refund_saved o d event client_id) db (simp eq_refl) refund_saved-ted_refunds

    -- When the event that a TED was given back is delivered again, the round writes nothing, unless the first round
    -- threw before it had saved the refund; then it left every other table as it was.
    pub ted_refund_received-once :
        (db : Db o)
        → let run = refund_received o d provider client_id event db in
          ((refund_received o d provider client_id event run.1).1 ≡ run.1)
          ⊎ (((x : Exception) × (run.0 ≡ throw x))
              × ((t : o.Table _) × (run.1 ≡ record db { ted_refunds = t })))
    unfolding refund_received
    ted_refund_received-once db =
        once-again o (ted_refund_repository o) fits (λ db. refl)
          (receive_refund o d provider event client_id) db (receive_refund-once db)

module _ (o : TypeOrm) (laws : IsLawful o) (d : DateParsers) where
  -- Once a cleared event of a stored refund of a TED has been processed, the same event is refused when it is
  -- delivered again: the round throws and writes nothing.
  pub ted_refund_cleared-again :
      (client_id code : String) (event : WebhookPayload TedRefundData) (row : Row TedRefund)
      (db db' : Db o)
      → cleared_code o d event ≡ some code
      → o.find_one TedRefund (has_code code) db.ted_refunds ≡ ok (some row)
      → refund_cleared o d client_id event db ≡ (ok tt, db')
      → (x : Exception) × (refund_cleared o d client_id event db' ≡ (throw x, db'))
  unfolding refund_cleared clear_code
  ted_refund_cleared-again client_id code event row db db' named found run = rw named (
      process_if_found-again o laws d (ted_refund_repository o) (has_code code) code
        ted_refund_was_cleared "TED_REFUND" client_id event event.event_data.description
        (cleared o d) (λ t db. refl) (λ db t. refl) (λ db t. refl) (λ e fits. fits) _ row db db'
        found (rw named at run))
