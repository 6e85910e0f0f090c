-- ===== src/Messaging.antt =====
-- pkg/orchestrators/ftl_orchestrator/messaging.go: the frames of the FTL orchestration protocol.
-- A byte slice that is built is a list of bytes; one that is decoded is a `Slice`, with the bytes
-- behind its end. A Go string is the list of its bytes.
pub mod Types
pub mod Encode
pub mod Decode
pub mod Header
pub mod RoundTrip
pub mod Faults
mod Runs
