-- ===== src/Approvals.antt =====
-- core/approvals.
pub mod Samples
pub mod Engine
pub mod Tool
pub mod Service
pub mod Trust
pub mod Tokens
