-- ===== src/Dmhy.antt =====
-- sources/dmhy: the crawler of DMHY's archive pages, with its page cache.
pub mod Cache
pub mod Size
pub mod Patterns
pub mod Html
pub mod Server
pub mod Jsonl
pub mod Command
