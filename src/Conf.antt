-- ===== src/Conf.antt =====
-- configs/: the routes that the servers look up.
pub mod Routes
