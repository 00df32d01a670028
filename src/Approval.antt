-- ===== src/Approval.antt =====
-- agentcreds-core/src/approval.rs: the approver directory, approval evidence and the record of
-- evidence already relied upon.
pub mod Directory
pub mod Evidence
pub mod Consumed
pub mod Bound
