-- ===== src/Pix.antt =====
-- Pix
pub mod Entities
