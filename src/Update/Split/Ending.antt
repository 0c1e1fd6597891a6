-- ===== src/Update/Split/Ending.antt =====
-- x
