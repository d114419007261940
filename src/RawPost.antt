-- ===== src/RawPost.antt =====
-- pkg/rawpost/rawpost.go: the wire types shared by the crawlers and the ingest endpoint.
use takuhai.Base.{Bytes, Int64, Time, ℕ}

-- One crawled post. It has no infohash: that is derived from the magnet when it is ingested.
pub record RawPost : Type 0 where
  pub title : Bytes
  pub magnet : Bytes
  pub source : Bytes
  pub source_id : Bytes
  pub url : Bytes
  pub published_at : Time
  pub size_bytes : Int64

-- The queue counts that an ingest answers with.
pub record QueueCounts : Type 0 where
  pub available : ℕ
  pub leased : ℕ
  pub exhausted : ℕ

-- How the posts of one batch were resolved.
pub record IngestBatch : Type 0 where
  pub new : ℕ
  pub updated : ℕ
  pub duplicate : ℕ
  pub conflict : ℕ
  pub skipped : ℕ

pub record IngestSummary : Type 0 where
  pub batch : IngestBatch
  pub queue : QueueCounts
