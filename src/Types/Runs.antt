-- ===== src/Types/Runs.antt =====
-- Names read at concrete texts.
