-- ===== src/Transaction.antt =====
-- Transactions (src/transaction): the entity, its statuses, and the service that creates and updates
-- it.
pub mod Status
pub mod Entity
pub mod Service
