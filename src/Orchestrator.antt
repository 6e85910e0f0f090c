-- ===== src/Orchestrator.antt =====
-- pkg/orchestrators: the clients of the two orchestrators. This is about ftl_orchestrator.go.
-- `Client` holds the fields that a value receiver copies; the connection behind `transport` is
-- shared by the copies. A flag says whether the connection's `Write` succeeds.
pub mod Router
pub mod Client
pub mod Receive
pub mod Sending
pub mod Framing
pub mod Truncated
pub mod Dispatch
mod Runs
