-- ===== src/Audit.antt =====
-- The audit log: src/common/audit, as far as the values that it keeps are cleaned.
pub mod Tests
pub mod Value
pub mod Sanitize
pub mod Interceptor
pub mod OldValues
