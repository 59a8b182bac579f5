-- ===== src/Camera.antt =====
-- apps/host/macos/camera-device: the region that the Host and the camera extension share.
pub mod Link
