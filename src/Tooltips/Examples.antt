-- ===== src/Tooltips/Examples.antt =====
-- A tooltip seen five times.
