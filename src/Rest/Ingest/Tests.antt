-- ===== src/Rest/Ingest/Tests.antt =====
-- Runs of POST /ingest.
use takuhai.Base.{[], ap, codes, length, refl, true, ℕ, ◌+◌, ◌∙◌, ◌∷◌, ◌≡◌}
use takuhai.Errors.{Result, ok, ◌>>=◌}
use takuhai.RawPost.{RawPost, IngestBatch}
use takuhai.Stdlib.Hex.{to_lower}
use takuhai.Infohash.{normalize_infohash}
use takuhai.Infohash.Canonical.{normalize_hex}
use takuhai.Rest.Ingest.{Env, ingest_post, ingest_batch, count_outcome, and_then, empty_batch}
use takuhai.Rest.Ingest.Counts.{total, batch_counts}
use takuhai.Rest.Ingest.Repeat.{works, ingest_batch-twice}
use takuhai.Rest.Ingest.Canonical.{normalize-is_canonical}
use takuhai.Store.{Db, healthy, is_canonical_infohash}
use takuhai.Store.Ingest.{IngestOutcome}
use takuhai.Store.Ingest.Tests.{zeros_infohash, no_rows, ingested_db, first-ingest}

abbrev pub zeros_post : RawPost
zeros_post = record {
  title = codes "a";
  magnet = zeros_infohash;
  source = codes "dmhy";
  source_id = codes "1";
  url = [];
  published_at = 5;
  size_bytes = 0;
}

abbrev pub calm : ℕ → Env
calm i = record { now = 7; fails = healthy }

abbrev pub one_new : IngestBatch
one_new = record { new = 1; updated = 0; duplicate = 0; conflict = 0; skipped = 0 }

pub one_post-batch :
    ingest_batch calm 0 (zeros_post ∷ []) empty_batch no_rows ≡ (ingested_db, ok one_new)
unfolding ingest_batch ingest_post count_outcome
one_post-batch =
    let after : Db × Result IngestOutcome → Db × Result IngestBatch =
      λ x. (x.0, x.1 >>= λ o. ok (count_outcome o empty_batch)) in
    let plain : normalize_infohash zeros_infohash ≡ ok zeros_infohash =
      normalize_hex zeros_infohash refl refl in
    let moved : ingest_post (calm 0) zeros_post (normalize_infohash zeros_infohash) empty_batch
          no_rows
        ≡ ingest_post (calm 0) zeros_post (ok zeros_infohash) empty_batch no_rows =
      ap (λ h. ingest_post (calm 0) zeros_post h empty_batch no_rows) plain in
    let ran : ingest_post (calm 0) zeros_post (ok zeros_infohash) empty_batch no_rows
        ≡ (ingested_db, ok one_new) =
      ap after first-ingest in
    let one = moved ∙ ran in
    let next : Db × Result IngestBatch → Db × Result IngestBatch =
      λ x. and_then x λ b db. (db, ok b) in
    ap next one

ingest_batch-twice_example :
    (again : IngestBatch) × (ingest_batch
        (works (λ i. i + 8))
        0
        (zeros_post ∷ [])
        empty_batch
        ingested_db
      ≡ (ingested_db, ok again))
    × (again.new ≡ 0)
    × (again.updated ≡ 0)
    × (again.skipped ≡ 0)
    × (again.duplicate + again.conflict + 0 ≡ length (zeros_post ∷ []))
ingest_batch-twice_example =
    ingest_batch-twice calm (λ i. i + 8) (zeros_post ∷ []) one_new no_rows ingested_db
      one_post-batch

batch_counts_example :
    (total one_new ≡ length (zeros_post ∷ []))
    × (length ingested_db.releases ≡ length no_rows.releases + 1)
    × (length ingested_db.raw_items ≡ length no_rows.raw_items + 1 + 0)
batch_counts_example =
    batch_counts calm (zeros_post ∷ []) one_new no_rows ingested_db one_post-batch

normalize-is_canonical_example : is_canonical_infohash (to_lower zeros_infohash) ≡ true
normalize-is_canonical_example =
    normalize-is_canonical zeros_infohash (to_lower zeros_infohash)
      (normalize_hex zeros_infohash refl refl)
