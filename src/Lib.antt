-- ===== src/Lib.antt =====
-- A model of parts of the payment API: its webhooks, which are what the program stores and answers
-- when its financial provider reports that a PIX, a TED, a boleto or a bill payment has moved on;
-- its permissions, which say what a client may do; and the cleaning of what its audit log keeps.
--
-- The program. A controller takes a provider's webhook, checks the public key of its sender and puts
-- the events into a queue; a processor takes the job and calls one handler of a webhook service with
-- the list of events. The handler runs over the events one by one: it looks the entity up, asks
-- whether the event may follow the last one that the event log has for this payment, changes the
-- entity, writes the payment's transaction and adds a line to the log. Errors are exceptions; the
-- queue runs the whole job again when the handler throws. There is no transaction of the database
-- around a handler, so that what was written before a throw stays.
--
-- Permissions. A client holds permissions directly and by its roles. The service of permissions reads
-- them from five tables and keeps three lists of each client in Redis; a call that changes what a client
-- holds deletes the client's lists first. A name `module:action` may grant others, by `*` or `write`.
--
-- The files.
-- - Common: shared names; Common/Script has the JavaScript idioms (truthiness, `||`, `?.`), Common/Exec
--   the async method as a function from the database to a result and the database after it, with the
--   `for` loop over events, Common/Lists lists of texts.
-- - Platform: what comes from outside. TypeORM is an engine of tables (`TypeOrm`) whose answers,
--   failures included, are free, with its documented behaviour as laws (`IsLawful`); the date parsers
--   of JavaScript and date-fns are functions (`DateParsers`). Platform/Dates is
--   src/common/helpers/date.helpers.ts, Platform/Financial the shared entities of
--   src/common/entities, and Platform/Memory an engine on lists that keeps the laws, for examples,
--   and one whose writes may fail and succeed when they are tried again.
-- - Database: one table for each entity, and the repositories.
-- - Account, Transaction, Pix, Ted, Boleto, BillPayment: the entities of src/account, src/transaction,
--   src/pix, src/ted, src/boleto and src/bill-payment with their columns. Transaction/Service is
--   src/transaction/transaction.service.ts as far as webhooks call it, and Transaction/Status the
--   statuses of src/transaction/helpers/transaction-status.helper.ts.
-- - Webhook: src/webhook-processor. Webhook/Event is the enumeration of events, Webhook/StateMachine
--   is helpers/webhook-state-machine.helper.ts (`canProcessWebhook` is `can_process_webhook`, and so
--   on), Webhook/Status is helpers/transaction-status-mapper.helper.ts, Webhook/Payload the payloads,
--   Webhook/EventLog is services/webhook-event-log.service.ts. Webhook/Steps has the steps that the
--   services write out in each handler. Webhook/Pix, Webhook/Ted, Webhook/Boleto and
--   Webhook/BillPayment are the four services of services/: a handler `handleX` is `handle_x`, and one
--   round of its loop is a definition of its own.
-- - Webhook/Processors: the queue processors of src/webhook-processor/processors; `handleJob` is
--   `handle_job`, and `onFailed` is `on_failed`.
-- - Webhook/Tests: the handlers on a database in memory.
-- - Platform/Manager is TypeORM where several rows are read or written at a time, Platform/Redis is Redis
--   and JSON; each has its documented behaviour as laws and an instance in memory for the examples.
-- - Permissions: src/permissions. Permissions/Name is helpers/permission.helper.ts, Permissions/Finder
--   is helpers/permission-finder.helper.ts, Permissions/Cache is src/common/redis/cache.service.ts,
--   Permissions/Entities and Permissions/Store the entities and the repositories.
--   services/permission.service.ts is Permissions/Crud (permissions and users), Permissions/Clients
--   (what a client holds) and Permissions/Clients/Assignments (what gives and takes it);
--   services/role.service.ts is Permissions/Roles, guards/permissions.guard.ts Permissions/Guard.
--   Permissions/Grants reads what a client holds off the tables, without the cache.
-- - Audit: src/common/audit. Audit/Value is a JavaScript value as the cleaning tells values apart, with
--   `isRecord` of src/common/errors/helpers/type.helpers.ts,
--   Audit/Sanitize is helpers/sanitize-data.helper.ts (`sanitize`, and `removeFields` as `remove_fields`),
--   Audit/Interceptor is `extractNewValues` of interceptors/audit.interceptor.ts, and Audit/OldValues what
--   its `fetchOldValues` does once the entity is an object. The recursion is on the value; the depth is
--   counted as in the code, and a value deeper than 20 is returned as it is. A value is a tree of data:
--   functions, getters, cycles and what a key `__proto__` makes of a prototype are not in the model.
--
-- How the model reads the code. A value that may be undefined or null is an `Option`. Amounts are
-- natural numbers of cents. A `where` object is the test of a row's columns. An id that the database
-- makes is on the `Row`, the other columns that it fills are left to the engine. Calls of the logger
-- write nothing that the program reads and are left out. A search that fails leaves the database as
-- it was; a write that fails leaves the rows, and the next one may succeed. A loop over events is
-- recursion on their list; no fuel is needed but in the printing of a number, where the number
-- itself is enough. A relation that a find loads along is a query of its table, a find of TypeORM
-- leaves out the rows with a date of deletion, and the two queries of a `Promise.all` run in turn.
-- The requests of a service are taken one after the other: what two that overlap may do is not
-- modelled.
--
-- Not modelled: the queue itself, HTTP (controllers, the provider's clients), the storing and
-- reading of audit entries, listings, users and clients, and configuration: they are I/O, glue, or
-- parts of their own.
pub mod Common
pub mod Platform
pub mod Database
pub mod Account
pub mod Transaction
pub mod Permissions
pub mod Audit
pub mod Pix
pub mod Boleto
pub mod BillPayment
pub mod Ted
pub mod Webhook
