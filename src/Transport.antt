-- ===== src/Transport.antt =====
-- protocol/plank-transport/include: the formats of the native transport.
pub mod BigEndian
pub mod Control
pub mod Event
pub mod Profiles
pub mod Setup
pub mod Input
pub mod Clipboard
pub mod Camera
pub mod CameraEncoded
