-- ===== src/Control.antt =====
-- pkg/control: the streams of the server, their metadata and the heartbeat.
-- Streams are shared by pointer: an address names a stream on a heap, also after it has left the map.
-- A Go map is a function into Option.
pub mod Types
pub mod Stream
pub mod Manager
pub mod Rules
pub mod Lifecycle
pub mod Heartbeat
pub mod Report
pub mod Race
pub mod Begun
pub mod Remote
pub mod Http
pub mod Thumbnailer
mod Runs
