-- ===== src/Metrics.antt =====
-- internal/metrics/metrics.go: what the service and the crawlers record. A nil receiver, which
-- records nothing, is left out.
pub mod Routes
use takuhai.Base.{
  Bool, Bytes, List, Option, [], any_if, bytes_eq, codes, if◌then◌else◌, ltb, none, some, ℕ, ◌&&◌,
  ◌++◌, ◌+◌, ◌||◌, ◌∷◌,
}
use takuhai.Errors.{Result, ok, err}
use takuhai.Store.{Float64}
use takuhai.Store.Stats.{QueueStats, CatalogStats}

-- A vector of counters as the list of what was added to it, each with its labels.
abbrev pub CounterVec : Type 0
CounterVec = List (List Bytes × ℕ)

abbrev pub add_to : List Bytes → ℕ → CounterVec → CounterVec
add_to labels n v = (labels, n) ∷ v

-- The sum of the counters whose labels pass a test.
abbrev pub total : (List Bytes → Bool) → CounterVec → ℕ
total p [] = 0
total p ((labels, n) ∷ v) = (if p labels then n else 0) + total p v

-- The metrics of the service but for durations; a histogram lists what it observed.
pub record Takuhai : Type 0 where
  pub ingest_batches : CounterVec
  pub ingest_posts : CounterVec
  pub ingest_batch_size : List ℕ
  pub queue_claims : CounterVec
  pub queue_claimed_items : ℕ
  pub queue_claim_batch_size : List ℕ
  pub submits : CounterVec
  pub submit_confidence : List (Bytes × Float64)
  pub mcp_tool_calls : CounterVec
  pub mcp_resolve_infohashes : CounterVec

-- IngestBatch
unfoldable pub record_batch : ℕ → Bytes → Takuhai → Takuhai
record_batch size result m = record m {
  ingest_batches = add_to (result ∷ []) 1 m.ingest_batches;
  ingest_batch_size = size ∷ m.ingest_batch_size;
}

abbrev pub source_label : Bytes → Bytes
source_label source = if bytes_eq source [] then codes "unknown" else source

-- IngestPost
unfoldable pub record_post : Bytes → Bytes → Takuhai → Takuhai
record_post source result m = record m {
  ingest_posts = add_to (source_label source ∷ result ∷ []) 1 m.ingest_posts;
}

-- QueueClaim
unfoldable pub record_claim : ℕ → Bytes → Takuhai → Takuhai
record_claim count result m =
    let claims = add_to (result ∷ []) 1 m.queue_claims in
    if ltb 0 count
    then record m {
      queue_claims = claims;
      queue_claimed_items = m.queue_claimed_items + count;
      queue_claim_batch_size = count ∷ m.queue_claim_batch_size;
    }
    else record m { queue_claims = claims }

pub submit_status : Bytes → Bytes
submit_status status =
    if any_if (bytes_eq status) (codes "matched" ∷ codes "unmatched" ∷ codes "suppressed" ∷ [])
    then status
    else codes "invalid"

-- The confidence that is observed: of a match or a suppression that succeeded.
pub observed : Bytes → Bytes → Option Float64 → List (Bytes × Float64)
observed status result none = []
observed status result (some x) =
    if bytes_eq result (codes "ok")
      && (bytes_eq status (codes "matched") || bytes_eq status (codes "suppressed"))
    then (status, x) ∷ []
    else []

-- Submit
unfoldable pub record_submit : Bytes → Bytes → Option Float64 → Takuhai → Takuhai
unfolding submit_status observed
record_submit status result confidence m =
    let label = submit_status status in
    record m {
      submits = add_to (label ∷ result ∷ []) 1 m.submits;
      submit_confidence = observed label result confidence ++ m.submit_confidence;
    }

-- MCPTool
unfoldable pub record_tool : Bytes → Bytes → Takuhai → Takuhai
record_tool tool result m = record m {
  mcp_tool_calls = add_to (tool ∷ result ∷ []) 1 m.mcp_tool_calls;
}

abbrev pub add_positive : Bytes → ℕ → CounterVec → CounterVec
add_positive label n v = if ltb 0 n then add_to (label ∷ []) n v else v

-- MCPResolveMagnets
unfoldable pub record_resolved : ℕ → ℕ → Takuhai → Takuhai
record_resolved hits misses m = record m {
  mcp_resolve_infohashes =
      add_positive (codes "miss") misses (add_positive (codes "hit") hits m.mcp_resolve_infohashes);
}

-- A gauge of a scrape: its name, its label where it has one, its value.
abbrev pub Sample : Type 0
Sample = Bytes × Bytes × ℕ

pub catalog_samples : Result CatalogStats → List Sample
catalog_samples (err e) = (codes "takuhai_catalog_stats_scrape_ok", [], 0) ∷ []
catalog_samples (ok c) =
    (codes "takuhai_catalog_stats_scrape_ok", [], 1)
    ∷ (codes "takuhai_catalog_raw_posts", [], c.raw_posts)
    ∷ (codes "takuhai_catalog_infohashes", [], c.infohashes)
    ∷ (codes "takuhai_catalog_refs", [], c.refs)
    ∷ []

abbrev items : Bytes → ℕ → Sample
items state n = (codes "takuhai_queue_items", state, n)

pub queue_samples : Result QueueStats → List Sample
queue_samples (err e) = (codes "takuhai_queue_stats_scrape_ok", [], 0) ∷ []
queue_samples (ok q) =
    (codes "takuhai_queue_stats_scrape_ok", [], 1)
    ∷ items (codes "claimable") q.available
    ∷ items (codes "leased") q.leased
    ∷ items (codes "unmatched") q.unmatched
    ∷ items (codes "matched") q.matched
    ∷ items (codes "suppressed") q.suppressed
    ∷ items (codes "exhausted") q.exhausted
    ∷ []

-- Collect, on what the two queries of the store give; the order of a map's states is fixed here.
pub collect : Result CatalogStats → Result QueueStats → List Sample
collect catalog queue = catalog_samples catalog ++ queue_samples queue

-- The metrics of a crawler but for durations.
pub record Crawler : Type 0 where
  pub crawl_requests : CounterVec
  pub crawl_posts : ℕ
  pub crawl_posts_per_request : List ℕ
  pub crawl_pages : ℕ
  pub fetch_requests : CounterVec
  pub parse_posts : CounterVec

-- Crawl; adding 0 posts to their counter is the same as not adding them.
pub record_crawl : Bytes → ℕ → Crawler → Crawler
record_crawl result posts m = record m {
  crawl_requests = add_to (result ∷ []) 1 m.crawl_requests;
  crawl_posts_per_request = posts ∷ m.crawl_posts_per_request;
  crawl_posts = m.crawl_posts + posts;
}

-- Fetch
pub record_fetch : Bytes → Crawler → Crawler
record_fetch result m = record m {
  fetch_requests = add_to (result ∷ []) 1 m.fetch_requests;
  crawl_pages = m.crawl_pages + (if bytes_eq result (codes "ok") then 1 else 0);
}

-- ParsePosts
pub record_parsed : Bytes → ℕ → Crawler → Crawler
record_parsed result posts m = record m {
  parse_posts = if ltb 0 posts then add_to (result ∷ []) posts m.parse_posts else m.parse_posts;
}
