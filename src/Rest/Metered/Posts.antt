-- ===== src/Rest/Metered/Posts.antt =====
-- The posts that are counted.
use takuhai.Base.{
  Bool, Bytes, List, [], any_if, ap, arith, bytes_eq, codes, false, if◌then◌else◌, inl, inr, length,
  ltb, refl, some, true, ℕ, ◌+◌, ◌∙◌, ◌∷◌, ◌≡◌,
}
use takuhai.Errors.{Error, Result, Result-cases, ok, err, ok-injective, >>=-eq-ok}
use takuhai.Infohash.{normalize_infohash}
use takuhai.Metrics.{Takuhai, total, record_batch, record_post}
use takuhai.RawPost.{RawPost, IngestBatch, IngestSummary}
use takuhai.Rest.Ingest.{
  Env, Response, success, failure, ingest_params, ingest_post, ingest_batch, is_skip, count_outcome,
  count_skipped, lacks_source, max_batch_posts, empty_batch, handle_ingest, answer, summarize,
}
use takuhai.Rest.Ingest.Counts.{and_then-eq-ok}
use takuhai.Rest.Metered.{outcome_label, post_result, loop_on, record_posts, metered_ingest}
use takuhai.Store.{Db}
use takuhai.Store.Stats.{queue_stats}
use takuhai.Store.Ingest.{IngestOutcome, new, updated, duplicate, conflict, ingest_n}

-- The buckets of a batch.
pub data Bucket : Type 0 where
  news updates duplicates conflicts skips : Bucket

abbrev pub bucket_label : Bucket → Bytes
bucket_label news = codes "new"
bucket_label updates = codes "updated"
bucket_label duplicates = codes "duplicate"
bucket_label conflicts = codes "conflict"
bucket_label skips = codes "skipped"

abbrev pub bucket_count : Bucket → IngestBatch → ℕ
bucket_count news b = b.new
bucket_count updates b = b.updated
bucket_count duplicates b = b.duplicate
bucket_count conflicts b = b.conflict
bucket_count skips b = b.skipped

-- The labels source and result of a counter of posts, with the given result.
abbrev pub has_result : Bytes → List Bytes → Bool
has_result result [] = false
has_result result (s ∷ []) = false
has_result result (s ∷ r ∷ rest) = bytes_eq r result

-- How often a result was recorded.
abbrev pub posts_with : Bytes → Takuhai → ℕ
posts_with result m = total (has_result result) m.ingest_posts

posts_with-record_post :
    (label source result : Bytes) (m : Takuhai)
    → posts_with label (record_post source result m)
      ≡ (if bytes_eq result label then 1 else 0) + posts_with label m
unfolding record_post
posts_with-record_post label source result m = refl

-- A recorded outcome counts where the batch counts it.
counts_outcome :
    (o : IngestOutcome) (k : Bucket) (b : IngestBatch)
    → (if bytes_eq (outcome_label o) (bucket_label k) then 1 else 0) + bucket_count k b
      ≡ bucket_count k (count_outcome o b)
unfolding count_outcome
counts_outcome new news b = omega arith
counts_outcome updated news b = omega arith
counts_outcome duplicate news b = omega arith
counts_outcome conflict news b = omega arith
counts_outcome o k b = omega arith

counts_skipped :
    (k : Bucket) (b : IngestBatch)
    → (if bytes_eq (codes "skipped") (bucket_label k) then 1 else 0) + bucket_count k b
      ≡ bucket_count k (count_skipped b)
counts_skipped news b = omega arith
counts_skipped updates b = omega arith
counts_skipped duplicates b = omega arith
counts_skipped conflicts b = omega arith
counts_skipped skips b = omega arith

counts_skip :
    (skip : Bool) (e : Error) (k : Bucket) (b b' : IngestBatch)
    → (if skip then ok (count_skipped b) else err e) ≡ ok b'
    → (if bytes_eq (if skip then codes "skipped" else codes "error") (bucket_label k) then 1 else 0)
        + bucket_count k b
      ≡ bucket_count k b'
counts_skip true e k b b' h = counts_skipped k b ∙ ap (bucket_count k) (ok-injective h)
counts_skip false e k b b' h = cc

-- What is recorded for a post that ends no batch is its bucket.
counts_post :
    (env : Env) (post : RawPost) (ih : Result Bytes) (k : Bucket) (b b' : IngestBatch) (db db' : Db)
    → ingest_post env post ih b db ≡ (db', ok b')
    → (if bytes_eq (post_result env post ih db) (bucket_label k) then 1 else 0) + bucket_count k b
      ≡ bucket_count k b'
unfolding ingest_post post_result
counts_post env post (err e) k b b' db db' h = counts_skip (is_skip e) e k b b' (ap (λ y. y.1) h)
counts_post env post (ok ih) k b b' db db' h =
    let out = (ingest_n env.fails env.now (ingest_params post ih) db).1 in
    let (o, done, same) = >>=-eq-ok out (λ o. ok (count_outcome o b)) (ap (λ y. y.1) h) in
    rw (done, post_result) (counts_outcome o k b ∙ ap (bucket_count k) (ok-injective same))

counts_posts :
    (env : ℕ → Env) (i : ℕ) (posts : List RawPost) (k : Bucket) (b b' : IngestBatch) (db db' : Db)
    (m : Takuhai)
    → ingest_batch env i posts b db ≡ (db', ok b')
    → posts_with (bucket_label k) (record_posts env i posts b db m) + bucket_count k b
      ≡ posts_with (bucket_label k) m + bucket_count k b'
unfolding ingest_batch record_posts loop_on
counts_posts env i [] k b b' db db' m h =
    ap (λ x. posts_with (bucket_label k) m + bucket_count k x) (ok-injective (ap (λ y. y.1) h))
counts_posts env i (post ∷ posts) k b b' db db' m h =
    let ih = normalize_infohash post.magnet in
    let first = ingest_post (env i) post ih b db in
    let (db1, b1, here, rest) =
      and_then-eq-ok first (λ b1 db1. ingest_batch env (i + 1) posts b1 db1) db' b' h in
    let m' = record_post post.source (post_result (env i) post ih db) m in
    let step : record_posts env i (post ∷ posts) b db m ≡ record_posts env (i + 1) posts b1 db1 m' =
      ap (λ x. loop_on x (record_posts env (i + 1) posts) m') here in
    omega (
      arith,
      ap (posts_with (bucket_label k)) step,
      counts_posts env (i + 1) posts k b1 b' db1 db' m' rest,
      counts_post (env i) post ih k b b1 db db1 here,
      posts_with-record_post (bucket_label k) post.source (post_result (env i) post ih db) m,
    )

no_bucket : (k : Bucket) → bucket_count k empty_batch ≡ 0
no_bucket news = refl
no_bucket updates = refl
no_bucket duplicates = refl
no_bucket conflicts = refl
no_bucket skips = refl

-- A summary comes from a batch that succeeded.
answer-success :
    (last : Env) (cap : ℕ) (ran : Db × Result IngestBatch) (db' : Db) (summary : IngestSummary)
    → answer last cap ran ≡ (db', success summary)
    → (b : IngestBatch) × (ran ≡ (db', ok b)) × (b ≡ summary.batch)
unfolding answer summarize
answer-success last cap (db, err e) db' summary h = cc (ap (λ y. y.1) h)
answer-success last cap (db, ok b) db' summary h =
    elim (Result-cases (queue_stats last.fails cap last.now db)) [
      | inr (e, q) ↦
          let h' : ◌≡◌ {A = Db × Response IngestSummary} (db, failure 500) (db', success summary) =
            rw (q, answer) at h in
          cc (ap (λ y. y.1) h')
      | inl (stats, q) ↦
          let h' : (db, success (summarize b stats)) ≡ (db', success summary) =
            rw (q, answer) at h in
          let same : summarize b stats ≡ summary = cc (ap (λ y. y.1) h') in
          (b, ap (λ (y : Db × Response IngestSummary). (y.0, ok b)) h', ap (λ x. x.batch) same)
    ]

refused-failure :
    (refused : Bool) (db db' : Db) (out : Db × Response IngestSummary) (summary : IngestSummary)
    → (if refused then (db, failure 400) else out) ≡ (db', success summary)
    → (refused ≡ false) × (out ≡ (db', success summary))
refused-failure true db db' out summary h = cc (ap (λ y. y.1) h)
refused-failure false db db' out summary h = (refl, h)

-- A POST /ingest that is answered with a summary has added, for each bucket of its batch, the number
-- of posts in it to the counters of posts with that result, over all sources.
pub metered_counts :
    (env : ℕ → Env) (last : Env) (cap : ℕ) (posts : List RawPost) (db db' : Db) (m m' : Takuhai)
    (summary : IngestSummary) (k : Bucket)
    → metered_ingest env last cap true (some posts) db m ≡ (m', (db', success summary))
    → posts_with (bucket_label k) m' ≡ posts_with (bucket_label k) m + bucket_count k summary.batch
unfolding metered_ingest handle_ingest answer record_batch
metered_counts env last cap posts db db' m m' summary k h =
    let served : handle_ingest env last cap true (some posts) db ≡ (db', success summary) =
      ap (λ y. y.1) h in
    let (small, sourced) =
      refused-failure (ltb max_batch_posts (length posts)) db db' _ summary served in
    let (present, ran) = refused-failure (any_if lacks_source posts) db db' _ summary sourced in
    let (b, done, same) =
      answer-success last cap (ingest_batch env 0 posts empty_batch db) db' summary ran in
    let counted = counts_posts env 0 posts k empty_batch b db db' m done in
    let recorded : posts_with (bucket_label k) (record_posts env 0 posts empty_batch db m)
        ≡ posts_with (bucket_label k) m' =
      rw (small, present) at (ap (λ y. posts_with (bucket_label k) y.0) h) in
    let none_yet = no_bucket k in
    omega (arith, counted, recorded, ap (bucket_count k) same, none_yet)
