-- ===== src/Video.antt =====
-- pkg/h264 less its ffmpeg decoder, and pkg/control/keyframer.go: finding and assembling keyframes.
pub mod Nal
pub mod Writer
pub mod Keyframer
pub mod Assembly
mod Runs
