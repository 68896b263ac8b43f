-- ===== src/Tenancy.antt =====
-- core/tenancy.
pub mod Permissions
pub mod Invites
pub mod Entitlements
pub mod Resolver
pub mod Settings
pub mod QuietHours
