-- ===== src/Ping/Main/Silent.antt =====
-- A client that fails without saying so.
