-- ===== src/ControlPlane.antt =====
-- The parts of the control plane (src/control-plane).
pub mod TaskGuards
pub mod TaskStore
pub mod ReceiptStore
pub mod AsyncQueue
pub mod Delegation
pub mod Agents
pub mod Registry
pub mod Orchestrator
