-- ===== src/Inputs.antt =====
-- internal/inputs: the inputs that start and stop streams, less the FTL input.
pub mod Whip
pub mod Rtmp
pub mod Janus
pub mod File
mod Runs
