-- ===== src/Rest/Metered/Tests.antt =====
-- A batch of one post, counted.
use takuhai.Base.{[], ap, refl, some, true, ◌+◌, ◌∙◌, ◌∷◌, ◌≡◌}
use takuhai.Errors.{ok}
use takuhai.Metrics.{Takuhai}
use takuhai.RawPost.{IngestSummary}
use takuhai.Rest.Ingest.{Response, success, handle_ingest, answer, lacks_source, summarize}
use takuhai.Rest.Ingest.Tests.{zeros_post, calm, one_new, one_post-batch}
use takuhai.Rest.Metered.{metered_ingest}
use takuhai.Rest.Metered.Posts.{posts_with, bucket_label, news, metered_counts}
use takuhai.Stdlib.Trim.{trim_space}
use takuhai.Store.{Db}
use takuhai.Store.Ingest.Tests.{ingested_db, no_rows}
use takuhai.Store.Stats.{queue_stats, count_queue}

abbrev fresh_metrics : Takuhai
fresh_metrics = record {
  ingest_batches = [];
  ingest_posts = [];
  ingest_batch_size = [];
  queue_claims = [];
  queue_claimed_items = 0;
  queue_claim_batch_size = [];
  submits = [];
  submit_confidence = [];
  mcp_tool_calls = [];
  mcp_resolve_infohashes = [];
}

abbrev one_summary : IngestSummary
one_summary = summarize one_new (count_queue 3 7 ingested_db.releases)

one_post-answer : answer (calm 0) 3 (ingested_db, ok one_new) ≡ (ingested_db, success one_summary)
unfolding answer queue_stats
one_post-answer = refl

one_post-served :
    handle_ingest calm (calm 0) 3 true (some (zeros_post ∷ [])) no_rows
    ≡ (ingested_db, success one_summary)
unfolding handle_ingest lacks_source trim_space
one_post-served = ap (answer (calm 0) 3) one_post-batch ∙ one_post-answer

abbrev one_metered : Takuhai
one_metered = (metered_ingest calm (calm 0) 3 true (some (zeros_post ∷ [])) no_rows fresh_metrics).0

one_post-metered :
    metered_ingest calm (calm 0) 3 true (some (zeros_post ∷ [])) no_rows fresh_metrics
    ≡ (one_metered, (ingested_db, success one_summary))
unfolding metered_ingest
one_post-metered = ap (λ (y : Db × Response IngestSummary). (one_metered, y)) one_post-served

metered_counts_example : posts_with (bucket_label news) one_metered ≡ 0 + 1
unfolding summarize
metered_counts_example =
    metered_counts calm (calm 0) 3 (zeros_post ∷ []) no_rows ingested_db fresh_metrics one_metered
      one_summary news one_post-metered
