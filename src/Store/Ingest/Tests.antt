-- ===== src/Store/Ingest/Tests.antt =====
-- Runs of an ingest.
use takuhai.Base.{Bytes, [], codes, refl, ◌≡◌}
use takuhai.Errors.{ok}
use takuhai.Store.{Db, healthy, is_canonical_infohash}
use takuhai.Store.Ingest.{
  IngestParams, new, after_insert, upsert, insert_item, upsert_tx, settle, ingest_n,
}

abbrev pub zeros_infohash : Bytes
zeros_infohash = codes "0000000000000000000000000000000000000000"

abbrev pub no_rows : Db
no_rows = record { releases = []; raw_items = []; match_events = []; next_item = 1; next_event = 1 }

abbrev pub one_post : IngestParams
one_post = record {
  infohash = zeros_infohash;
  source = codes "dmhy";
  source_id = codes "1";
  title = codes "a";
  url = [];
  magnet = zeros_infohash;
  size_bytes = 0;
  published_at = 5;
}

abbrev pub ingested_db : Db
ingested_db = (ingest_n healthy 7 one_post no_rows).0

pub first-ingest : ingest_n healthy 7 one_post no_rows ≡ (ingested_db, ok new)
unfolding ingest_n upsert_tx upsert insert_item after_insert settle is_canonical_infohash
first-ingest = refl
