-- ===== src/Spend.antt =====
-- The spend engine of src/core/node.ts.
pub mod Coins
pub mod Verify
pub mod Session
pub mod Errors
pub mod Select
pub mod Submit
pub mod Outputs
pub mod Assemble
pub mod Flows
pub mod Consolidate
pub mod MaxSend
