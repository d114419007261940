-- ===== src/Rest.antt =====
-- internal/rest: the HTTP endpoints over the store.
pub mod Ingest
pub mod Submit
pub mod Metered
pub mod Read
