-- ===== src/Security.antt =====
-- sara_unified/security: who may call, how often, and what is refused.
pub mod Replay
pub mod RateLimit
pub mod Circuit
