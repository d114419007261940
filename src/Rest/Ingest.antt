-- ===== src/Rest/Ingest.antt =====
-- internal/rest/ingest.go: POST /ingest, which normalizes the magnet of each post and ingests it.
pub mod Counts
pub mod Repeat
pub mod Tests
pub mod Canonical
use takuhai.Base.{
  Bool, Bytes, List, Option, Time, [], any_if, bytes_eq, false, if◌then◌else◌, length, ltb, none,
  some, true, ℕ, ◌+◌, ◌||◌, ◌∷◌,
}
use takuhai.Errors.{Result, ok, err, Error, skip_infohash, ◌>>=◌}
use takuhai.Stdlib.Trim.{trim_space}
use takuhai.Infohash.{normalize_infohash}
use takuhai.RawPost.{RawPost, IngestBatch, IngestSummary, QueueCounts}
use takuhai.Store.{Db, Faults}
use takuhai.Store.Ingest.{IngestParams, IngestOutcome, new, updated, duplicate, conflict, ingest_n}
use takuhai.Store.Stats.{QueueStats, queue_stats}

-- What the outside decides for one call of the store: the clock, and which database calls fail.
pub record Env : Type 0 where
  pub now : Time
  pub fails : Faults

abbrev pub max_batch_posts : ℕ
max_batch_posts = 1000

abbrev pub ingest_params : RawPost → Bytes → IngestParams
ingest_params p ih = record {
  infohash = ih;
  source = p.source;
  source_id = p.source_id;
  title = p.title;
  url = p.url;
  magnet = p.magnet;
  size_bytes = p.size_bytes;
  published_at = p.published_at;
}

unfoldable pub count_outcome : IngestOutcome → IngestBatch → IngestBatch
count_outcome new b = record b { new = b.new + 1 }
count_outcome updated b = record b { updated = b.updated + 1 }
count_outcome duplicate b = record b { duplicate = b.duplicate + 1 }
count_outcome conflict b = record b { conflict = b.conflict + 1 }

abbrev pub count_skipped : IngestBatch → IngestBatch
count_skipped b = record b { skipped = b.skipped + 1 }

-- errors.Is(err, infohash.ErrSkipInfohash)
unfoldable pub is_skip : Error → Bool
is_skip skip_infohash = true
is_skip _ = false

-- One post, at its place in the batch: the tables, and the batch so far or the error that ends it.
unfoldable pub ingest_post :
    Env → RawPost → Result Bytes → IngestBatch → Db → Db × Result IngestBatch
ingest_post env post (err e) b db = (db, if is_skip e then ok (count_skipped b) else err e)
ingest_post env post (ok ih) b db =
    let (db', out) = ingest_n env.fails env.now (ingest_params post ih) db in
    (db', out >>= λ o. ok (count_outcome o b))

-- The tables go on to the next call, an error ends the chain.
abbrev pub and_then {ℓ κ} :
    {A : Type ℓ} {B : Type κ} → Db × Result A → (A → Db → Db × Result B) → Db × Result B
and_then (db, err e) f = (db, err e)
and_then (db, ok a) f = f a db

-- The loop over the posts; each call has its own time and failures. A failure ends the batch, and
-- what was ingested before it stays.
unfoldable pub ingest_batch :
    (ℕ → Env) → ℕ → List RawPost → IngestBatch → Db → Db × Result IngestBatch
ingest_batch env i [] b db = (db, ok b)
ingest_batch env i (post ∷ posts) b db =
    and_then (ingest_post (env i) post (normalize_infohash post.magnet) b db)
      λ b' db'. ingest_batch env (i + 1) posts b' db'

-- strings.TrimSpace(post.Source) == "" || strings.TrimSpace(post.SourceID) == ""
unfoldable pub lacks_source : RawPost → Bool
lacks_source p = bytes_eq (trim_space p.source) [] || bytes_eq (trim_space p.source_id) []

abbrev pub empty_batch : IngestBatch
empty_batch = record { new = 0; updated = 0; duplicate = 0; conflict = 0; skipped = 0 }

unfoldable pub summarize : IngestBatch → QueueStats → IngestSummary
summarize b q = record {
  batch = b;
  queue = record { available = q.available; leased = q.leased; exhausted = q.exhausted };
}

-- A response: the summary under 200, or the status of the failure.
pub data Response {ℓ} (A : Type ℓ) : Type ℓ where
  success : A → Response A
  failure : ℕ → Response A

-- The queue counts follow a batch that succeeded.
unfoldable pub answer : Env → ℕ → Db × Result IngestBatch → Db × Response IngestSummary
answer env m (db, err e) = (db, failure 500)
answer env m (db, ok b) = elim (queue_stats env.fails m env.now db) [
  | err e ↦ (db, failure 500)
  | ok q ↦ (db, success (summarize b q))
]

-- handleIngest, on a method and on the posts of the body if it decodes.
unfoldable pub handle_ingest :
    (ℕ → Env) → Env → ℕ → Bool → Option (List RawPost) → Db → Db × Response IngestSummary
handle_ingest env last m false body db = (db, failure 405)
handle_ingest env last m true none db = (db, failure 400)
handle_ingest env last m true (some posts) db =
    if ltb max_batch_posts (length posts)
    then (db, failure 400)
    else if any_if lacks_source posts
    then (db, failure 400)
    else answer last m (ingest_batch env 0 posts empty_batch db)
