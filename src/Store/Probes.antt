-- ===== src/Store/Probes.antt =====
-- internal/store/captcha_probe.go: background tests of a user's own captcha service.
pub mod Operations
pub mod Cooling
mod Tests
