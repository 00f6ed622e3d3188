-- ===== src/Webhook/Tests.antt =====
-- The webhook services run on a database in memory.
pub mod Fixtures
pub mod Sequence
pub mod Pix
pub mod PixRefund
pub mod Bills
pub mod Ted
pub mod Jobs
pub mod History
