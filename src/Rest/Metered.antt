-- ===== src/Rest/Metered.antt =====
-- What the REST handlers record: the calls of metrics in internal/rest/ingest.go, queue.go and
-- submit.go.
pub mod Posts
mod Tests
use takuhai.Base.{
  Bool, Bytes, List, Option, [], any_if, codes, false, if◌then◌else◌, length, ltb, none, some, true,
  ℕ, ◌+◌, ◌||◌, ◌∷◌,
}
use takuhai.Errors.{Error, Result, ok, err, no_active_lease, stale_lease}
use takuhai.Dispatch.{
  ClaimItemResult, WireCode, no_active_lease_code, stale_lease_code, wire_code, submit_typed,
}
use takuhai.Infohash.{normalize_infohash}
use takuhai.Metrics.{Takuhai, record_batch, record_post, record_claim, record_submit}
use takuhai.RawPost.{RawPost, IngestBatch, IngestSummary}
use takuhai.Rest.Ingest.{
  Env, Response, success, failure, ingest_params, ingest_post, ingest_batch, is_skip, lacks_source,
  max_batch_posts, empty_batch, handle_ingest,
}
use takuhai.Store.{Db}
use takuhai.Store.Ingest.{IngestOutcome, new, updated, duplicate, conflict, ingest_n}
use takuhai.Store.Submit.{SubmitStatus, SubmitParams}

abbrev pub outcome_label : IngestOutcome → Bytes
outcome_label new = codes "new"
outcome_label updated = codes "updated"
outcome_label duplicate = codes "duplicate"
outcome_label conflict = codes "conflict"

-- The result that is recorded for a post.
pub post_result : Env → RawPost → Result Bytes → Db → Bytes
post_result env post (err e) db = if is_skip e then codes "skipped" else codes "error"
post_result env post (ok ih) db = elim (ingest_n env.fails env.now (ingest_params post ih) db).1 [
  | err e ↦ codes "error"
  | ok o ↦ outcome_label o
]

-- A failure ends the loop.
pub loop_on {ℓ} : {A : Type ℓ} → Db × Result A → (A → Db → Takuhai → Takuhai) → Takuhai → Takuhai
loop_on (db, err e) rest m = m
loop_on (db, ok b) rest m = rest b db m

-- The loop over the posts, as the metrics see it.
pub record_posts : (ℕ → Env) → ℕ → List RawPost → IngestBatch → Db → Takuhai → Takuhai
unfolding post_result
record_posts env i [] b db m = m
record_posts env i (post ∷ posts) b db m =
    let ih = normalize_infohash post.magnet in
    loop_on (ingest_post (env i) post ih b db) (record_posts env (i + 1) posts)
      (record_post post.source (post_result (env i) post ih db) m)

abbrev pub response_label {ℓ} : {A : Type ℓ} → Response A → Bytes
response_label (success a) = codes "ok"
response_label (failure status) = codes "error"

-- handleIngest with its metrics, on a method and on the posts of the body if it decodes.
pub metered_ingest :
    (ℕ → Env)
    → Env
    → ℕ
    → Bool
    → Option (List RawPost)
    → Db
    → Takuhai
    → Takuhai × (Db × Response IngestSummary)
unfolding record_posts
metered_ingest env last cap false body db m = (m, handle_ingest env last cap false body db)
metered_ingest env last cap true none db m =
    (record_batch 0 (codes "error") m, handle_ingest env last cap true none db)
metered_ingest env last cap true (some posts) db m =
    let out = handle_ingest env last cap true (some posts) db in
    let refused = ltb max_batch_posts (length posts) || any_if lacks_source posts in
    let m' = if refused then m else record_posts env 0 posts empty_batch db m in
    (record_batch (length posts) (response_label out.1) m', out)

-- handleClaim's metrics, from its answer.
pub record_claimed : Response (List ClaimItemResult) → Takuhai → Takuhai
record_claimed (failure status) m = record_claim 0 (codes "error") m
record_claimed (success []) m = record_claim 0 (codes "empty") m
record_claimed (success (i ∷ items)) m = record_claim (length (i ∷ items)) (codes "claimed") m

-- A status that is not known is recorded as invalid, whatever its text.
pub status_text : SubmitStatus → Bytes
status_text SubmitStatus.matched = codes "matched"
status_text SubmitStatus.unmatched = codes "unmatched"
status_text SubmitStatus.suppressed = codes "suppressed"
status_text SubmitStatus.unknown = codes "invalid"

pub submit_result : WireCode → Bytes
submit_result no_active_lease_code = codes "conflict"
submit_result stale_lease_code = codes "conflict"
submit_result _ = codes "error"

-- handleSubmit's metrics, on the request if it decodes and on what SubmitTyped gives.
pub record_submitted : Option SubmitParams → Result (Unit {0}) → Takuhai → Takuhai
unfolding status_text submit_result
record_submitted none out m = record_submit (codes "invalid") (codes "error") none m
record_submitted (some req) (err e) m =
    record_submit (status_text req.status) (submit_result (wire_code e)) none m
record_submitted (some req) (ok u) m =
    record_submit (status_text req.status) (codes "ok") req.confidence m
