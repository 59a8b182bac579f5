-- ===== src/Probes.antt =====
-- probes: the qualification programs, where they compute.
pub mod Native10
