-- ===== src/Pricing.antt =====
-- core/pricing.
pub mod Extract
