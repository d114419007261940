-- ===== src/Crawl.antt =====
-- pkg/crawl: the stateless crawl engine, its cursor, its lookback window and its HTTP handler.
pub mod Cursor
pub mod Walk
pub mod Lookback
pub mod Server
