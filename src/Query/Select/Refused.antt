-- ===== src/Query/Select/Refused.antt =====
-- todo
