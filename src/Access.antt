-- ===== src/Access.antt =====
-- Permissions and policies (core/permissions, core/policies and core/middlewares).
pub mod Catalog
pub mod Resolver
pub mod Scope
pub mod Policy
pub mod Tests
