-- ===== src/Webhook.antt =====
-- The webhook processor (src/webhook-processor): the events and their sequence, the event log, the
-- services that apply an event to the stored entities, and the queue processors.
pub mod Event
pub mod StateMachine
pub mod Status
pub mod Payload
pub mod EventLog
pub mod Steps
pub mod Pix
pub mod Boleto
pub mod BillPayment
pub mod Ted
pub mod Tests
pub mod Processors
