-- ===== src/Landing.antt =====
-- core/landing: the life of a landing page.
pub mod Lifecycle
