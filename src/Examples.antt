-- ===== src/Examples.antt =====
-- Concrete inputs, and the theorems at them.
pub mod Data
mod Governance
mod Control
mod Devices
mod Accounts
mod Titan
mod Models
mod Review
mod Security
mod Verdicts
mod Voices
