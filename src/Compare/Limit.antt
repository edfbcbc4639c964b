-- ===== src/Compare/Limit.antt =====
-- How much of the evidence is returned.
