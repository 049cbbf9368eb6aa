-- ===== src/Shutdown/Tests.antt =====
-- The end of the process on a concrete system.
