-- ===== src/Dspmqrtj/Sending/Local.antt =====
-- The put to a queue that is local.
