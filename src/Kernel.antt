-- ===== src/Kernel.antt =====
-- sara_unified/governance/unified_kernel.py: the deterministic kernel that decides on a proposed
-- action before it is executed.
pub mod Model
pub mod Insurance
pub mod Risk
pub mod Gates
pub mod Evaluate
pub mod Decision
pub mod Statuses
pub mod Authorized
pub mod Bounds
pub mod Coverage
pub mod Evidence
