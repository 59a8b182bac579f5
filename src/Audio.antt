-- ===== src/Audio.antt =====
-- apps/host/macos/audio-device: the buffers between the network and the audio devices, and the two
-- drivers that Core Audio loads.
pub mod MicQueue
pub mod MicBuffer
pub mod CoreAudio
pub mod Clients
pub mod OutputDriver
pub mod MicDriver
pub mod MicLink
