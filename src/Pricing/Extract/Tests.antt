-- ===== src/Pricing/Extract/Tests.antt =====
-- The theorem on amounts that are written out, at 2,500 rupees.
