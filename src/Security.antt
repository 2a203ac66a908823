-- ===== src/Security.antt =====
-- The checks of core/security.
pub mod Scan
