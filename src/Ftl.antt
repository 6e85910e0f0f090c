-- ===== src/Ftl.antt =====
-- pkg/protocols/ftl: the FTL ingest protocol, and internal/inputs/ftl: its handler.
pub mod Regex
pub mod Lines
pub mod Client
pub mod Media
pub mod Connection
pub mod Server
pub mod Handler
pub mod Meeting
mod Runs
