-- ===== src/Auth.antt =====
-- apps/host/macos/auth: who may attach to a graphical session.
pub mod AccountPolicy
