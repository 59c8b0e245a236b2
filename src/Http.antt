-- ===== src/Http.antt =====
-- inc/Apps.h: the HTTP server over uWebSockets.
pub mod Apps
