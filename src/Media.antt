-- ===== src/Media.antt =====
-- apps/host/macos/media: what the Host keeps about pictures and clocks while it streams.
pub mod VideoRecovery
pub mod ReverseClock
pub mod CameraPayload
pub mod Diagnostics
pub mod FrameTiming
pub mod MicDecoder
pub mod TapBuffer
pub mod TapPolicy
