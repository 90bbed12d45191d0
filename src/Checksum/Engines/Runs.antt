-- ===== src/Checksum/Engines/Runs.antt =====
-- The factory at a name.
