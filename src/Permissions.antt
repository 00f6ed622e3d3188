-- ===== src/Permissions.antt =====
-- The permissions of clients: src/permissions, with the cache of common/redis/cache.service.ts.
pub mod Name
pub mod Entities
pub mod Store
pub mod Cache
pub mod Finder
pub mod Clients
pub mod Grants
pub mod Crud
pub mod Guard
pub mod Roles
pub mod Tests
