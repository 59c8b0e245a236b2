-- ===== src/Files.antt =====
-- hotupdate/: the files that the HTTP server answers with, read once and kept, and events.
pub mod Load
pub mod Cache
pub mod Event
