-- ===== src/Util/Tests.antt =====
-- The theorem on ntoh at concrete bytes.
