-- ===== src/ControlPlane/Orchestrator.antt =====
-- control-plane/orchestrator.ts, which drives the stores, the queue, the registry and the executor.
pub mod State
pub mod Negotiation
pub mod Outputs
pub mod Answers
pub mod Plan
pub mod Dispatch
pub mod Approval
pub mod Cancel
pub mod Polling
pub mod Prepared
pub mod Events
pub mod Effects
pub mod Obedience
pub mod Redelivery
pub mod Approvals
pub mod Acts
pub mod History
pub mod Cancellation
pub mod Sealed
pub mod Signatures
pub mod Receipts
mod Fixtures
mod Tests
