-- ===== src/Ted.antt =====
-- Ted
pub mod Entities
