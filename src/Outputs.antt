-- ===== src/Outputs.antt =====
-- internal/outputs: how viewers get a stream.
pub mod Whep
mod Runs
