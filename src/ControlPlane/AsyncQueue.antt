-- ===== src/ControlPlane/AsyncQueue.antt =====
-- control-plane/async-queue.ts: the queue of asynchronous jobs as a state machine. One step is what
-- the event loop runs without a break: a call, a microtask, the end of a job or a timer; it sees one
-- time. A job's `run` is outside the model, and ends later, well or badly; a dead-letter callback
-- is outside too, and returns. The file of dead letters is left out.
pub mod State
pub mod Loop
pub mod Steps
pub mod Preserved
pub mod Bounds
pub mod Fuel
pub mod EffectSets
pub mod Effects
mod Tests
