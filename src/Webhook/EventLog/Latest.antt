-- ===== src/Webhook/EventLog/Latest.antt =====
-- What the log answers after a line was added to it.
use api_payment.Common.{
  ◌≡◌, refl, sym, ap, Bool, true, false, Option, none, truthy_text, arith, ◌∙◌, String, List, [],
  ◌∷◌, str_eq, if◌then◌else◌, ◌&&◌, Bool-cases, inl, inr,
}
use api_payment.Common.Exec.{ok_injective, Exception, Result, ok, throw, continue}
use api_payment.Platform.{Row, TypeOrm, IsLawful}
use api_payment.Database.{Db}
use api_payment.Webhook.EventLog.Entity.{WebhookEventLog}
use api_payment.Webhook.EventLog.{
  is_processed_for, event_name_of, get_last_processed_event, log_event,
}

-- A search that answered has found what its name is read from.
pub name_found :
    {S : Type 0} (found : Result (Option (Row WebhookEventLog))) (s : S) (last : Option String)
    → (continue found (λ log s. (ok (event_name_of log), s)) s).0 ≡ ok last
    → (log : Option (Row WebhookEventLog)) × (found ≡ ok log) × (last ≡ event_name_of log)
name_found (ok log) s last h = (log, refl, ground arith)
name_found (throw x) s last h = cc

-- What a search answers does not depend on the state that it is made in.
named_result : Result (Option (Row WebhookEventLog)) → Result (Option String)
named_result (ok log) = ok (event_name_of log)
named_result (throw x) = throw x

name_of_search :
    {S : Type 0} (found : Result (Option (Row WebhookEventLog))) (s : S)
    → (continue found (λ log s. (ok (event_name_of log), s)) s).0 ≡ named_result found
unfolding named_result
name_of_search (ok log) s = refl
name_of_search (throw x) s = refl

module _ (o : TypeOrm) (laws : IsLawful o) where
  -- After a line that the search asks for, the log names its event.
  pub last-log_event :
      (entry : WebhookEventLog) (code : String) (db db' : Db o) (r : Row WebhookEventLog)
      (last : Option String)
      → log_event o entry db ≡ (ok r, db')
      → is_processed_for code entry ≡ true
      → (get_last_processed_event o code db').0 ≡ ok last
      → last ≡ truthy_text entry.event_name
  unfolding log_event get_last_processed_event
  last-log_event entry code db db' r last logged fits found =
      let stored = ap (λ s. (s.0, s.1.event_logs)) logged in
      let (log, seen, named) = name_found _ db' last found in
      let latest = laws.insert_last _ (is_processed_for code) entry _ _ r log stored fits seen in
      let name = laws.insert_column _ (λ e. e.event_name) entry _ _ r stored in
      named ∙ ap event_name_of latest ∙ ap truthy_text name

  -- A line that the search does not ask for changes nothing for it.
  pub last-log_event_other :
      (entry : WebhookEventLog) (code : String) (db db' : Db o) (r : Row WebhookEventLog)
      → log_event o entry db ≡ (ok r, db')
      → is_processed_for code entry ≡ false
      → (get_last_processed_event o code db').0 ≡ (get_last_processed_event o code db).0
  unfolding log_event get_last_processed_event
  last-log_event_other entry code db db' r logged fits =
      let stored = ap (λ s. (s.0, s.1.event_logs)) logged in
      name_of_search _ db'
      ∙ ap named_result (laws.insert_other _ (is_processed_for code) entry _ _ r stored fits)
      ∙ sym (name_of_search _ db)

  -- The answer is what the search of the log finds.
  pub last-find_last :
      (code : String) (db db' : Db o)
      → o.find_last _ (is_processed_for code) db'.event_logs
        ≡ o.find_last _ (is_processed_for code) db.event_logs
      → (get_last_processed_event o code db').0 ≡ (get_last_processed_event o code db).0
  unfolding get_last_processed_event
  last-find_last code db db' same =
      name_of_search _ db' ∙ ap named_result same ∙ sym (name_of_search _ db)

  -- A line that could not be saved changes nothing.
  pub last-log_event_failed :
      (entry : WebhookEventLog) (code : String) (db db' : Db o) (x : Exception)
      → log_event o entry db ≡ (throw x, db')
      → (get_last_processed_event o code db').0 ≡ (get_last_processed_event o code db).0
  unfolding log_event
  last-log_event_failed entry code db db' x stored =
      last-find_last code db db'
        (laws.insert_failed _ (is_processed_for code) entry db.event_logs db'.event_logs x
          (ap (λ s. (s.0, s.1.event_logs)) stored)).1

  -- The answer is read from the log alone.
  pub last-event_logs :
      (code : String) (db db' : Db o)
      → db'.event_logs ≡ db.event_logs
      → (get_last_processed_event o code db').0 ≡ (get_last_processed_event o code db).0
  unfolding get_last_processed_event
  last-event_logs code db db' same =
      name_of_search _ db'
      ∙ ap (λ t. named_result (o.find_last _ (is_processed_for code) t)) same
      ∙ sym (name_of_search _ db)

-- From one database to another by lines that `logEvent` added, the latest first; in between, lines that
-- could not be saved and runs that leave the log alone.
pub data Logged (o : TypeOrm) : Db o → List WebhookEventLog → Db o → Type 0 where
  nothing : {db : Db o} → Logged o db [] db
  line :
      {db db1 db2 : Db o} (entries : List WebhookEventLog) (entry : WebhookEventLog)
      (r : Row WebhookEventLog)
      → Logged o db entries db1
      → log_event o entry db1 ≡ (ok r, db2)
      → Logged o db (entry ∷ entries) db2
  failed :
      {db db1 db2 : Db o} {entries : List WebhookEventLog} (entry : WebhookEventLog) (x : Exception)
      → Logged o db entries db1
      → log_event o entry db1 ≡ (throw x, db2)
      → Logged o db entries db2
  elsewhere :
      {db db1 db2 : Db o} {entries : List WebhookEventLog}
      → Logged o db entries db1
      → db2.event_logs ≡ db1.event_logs
      → Logged o db entries db2

-- The name of the latest line for the payment `code` whose event was processed
abbrev pub last_processed : String → List WebhookEventLog → Option String
last_processed code [] = none
last_processed code (entry ∷ entries) =
    let rest = last_processed code entries in
    if str_eq entry.authentication_code code
    then if entry.was_processed then truthy_text entry.event_name else rest
    else rest

chosen :
    (a b : Bool) (x y : Option String) → (a && b) ≡ true → x ≡ (if a then if b then x else y else y)
chosen a b x y h = ground arith

passed_over :
    (a b : Bool) (x y : Option String)
    → (a && b) ≡ false
    → y ≡ (if a then if b then x else y else y)
passed_over a b x y h = ground arith

module _ (o : TypeOrm) (laws : IsLawful o) (code : String) (db : Db o)
    (fresh : (get_last_processed_event o code db).0 ≡ ok none) where
  -- Whatever lines were logged since a payment had no processed event, getLastProcessedEvent that
  -- answers names the latest of them that is of this payment and was processed, or none if there is no
  -- such line.
  pub get_last_processed_event-Logged :
      (entries : List WebhookEventLog) (db' : Db o) (last : Option String)
      → Logged o db entries db'
      → (get_last_processed_event o code db').0 ≡ ok last
      → last ≡ last_processed code entries
  get_last_processed_event-Logged entries db' last nothing found =
      ok_injective _ _ (sym found ∙ fresh)
  get_last_processed_event-Logged entries db' last (elsewhere logged same) found =
      get_last_processed_event-Logged _ _ last logged
        (sym (last-event_logs o laws code _ db' same) ∙ found)
  get_last_processed_event-Logged entries db' last (failed entry x logged stored) found =
      get_last_processed_event-Logged _ _ last logged
        (sym (last-log_event_failed o laws entry code _ db' x stored) ∙ found)
  get_last_processed_event-Logged entries db' last (line rest entry r logged stored) found =
      let before = get_last_processed_event-Logged _ _ last logged in
      elim (Bool-cases (is_processed_for code entry)) [
        | inl fits ↦
            last-log_event o laws entry code _ db' r last stored fits found
            ∙ chosen (str_eq entry.authentication_code code) entry.was_processed _
                (last_processed code rest) fits
        | inr misses ↦
            before (sym (last-log_event_other o laws entry code _ db' r stored misses) ∙ found)
            ∙ passed_over (str_eq entry.authentication_code code) entry.was_processed
                (truthy_text entry.event_name) _ misses
      ]
