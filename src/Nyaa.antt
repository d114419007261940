-- ===== src/Nyaa.antt =====
-- sources/nyaa: the parser of a listing page.
pub mod Size
pub mod Patterns
pub mod Html
pub mod Server
pub mod Command
