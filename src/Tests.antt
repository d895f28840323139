-- ===== src/Tests.antt =====
-- Concrete inputs on which the theorems are applied, and the results there.
pub mod Sample
pub mod Codec
pub mod Spending
pub mod Fills
pub mod Checks
pub mod Approvals
pub mod Parts
pub mod Toy
pub mod Vaults
pub mod Pendings
pub mod Histories
