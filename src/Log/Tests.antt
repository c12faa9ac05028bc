-- ===== src/Log/Tests.antt =====
-- A debug message of libbpf at the level `info`.
