-- ===== src/Mediation.antt =====
-- core/mediation: the path from a model's tool calls to the tools.
pub mod Limits
pub mod Manifest
pub mod World
pub mod Proxy
pub mod Instances
