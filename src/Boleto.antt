-- ===== src/Boleto.antt =====
-- Boleto
pub mod Entities
