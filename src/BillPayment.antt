-- ===== src/BillPayment.antt =====
-- BillPayment
pub mod Entities
