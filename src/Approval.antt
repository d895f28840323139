-- ===== src/Approval.antt =====
-- Requests from web pages (src/background.ts): the approval queue, what an approval does, and the connected sites.
pub mod Consents
pub mod Queue
pub mod Resolve
pub mod Messages
