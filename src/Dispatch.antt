-- ===== src/Dispatch.antt =====
-- internal/dispatch/dispatch.go: the checks between a transport and the store, and the wire codes.
pub mod Json
mod Tests
use takuhai.Base.{
  Bool, Bytes, Int64, List, Option, Time, [], false, if◌then◌else◌, map, map_option, true, ℕ,
}
use takuhai.Errors.{
  ◌>>=◌, Result, ok, err, Error, no_such_release, no_active_lease, stale_lease, invalid_ref,
  invalid_cursor, invalid_input,
}
use takuhai.Infohash.{normalize_infohash}
use takuhai.Store.{Db, Faults, Float64, RawItemDetail, MatchStatus, null_if_empty}
use takuhai.Cursor.Token.{Codec}
use takuhai.Store.Claim.{ClaimParams, ClaimedRelease, claim}
use takuhai.Store.Listing.{ReleaseQuery, ReleaseItem, list_releases, default_to}
use takuhai.Store.Stats.{QueueStats, queue_stats}
use takuhai.Store.Submit.{SubmitStatus, SubmitParams, submit}
use takuhai.Store.Query.{ReleaseDetail, MatchEventDetail, get_release, resolve_magnets}

pub data WireCode : Type 0 where
  no_such_release_code no_active_lease_code stale_lease_code invalid_ref_code invalid_cursor_code
        invalid_input_code no_code :
      WireCode

unfoldable pub wire_code : Error → WireCode
wire_code no_such_release = no_such_release_code
wire_code no_active_lease = no_active_lease_code
wire_code stale_lease = stale_lease_code
wire_code invalid_ref = invalid_ref_code
wire_code invalid_cursor = invalid_cursor_code
wire_code invalid_input = invalid_input_code
wire_code _ = no_code

unfoldable pub is_known : SubmitStatus → Bool
is_known SubmitStatus.unknown = false
is_known _ = true

-- SubmitTyped
unfoldable pub submit_typed : Faults → ℕ → Time → SubmitParams → Db → Db × Result (Unit {0})
submit_typed fails m now req db =
    if is_known req.status then submit fails m now req db else (db, err invalid_input)

-- ResolveMagnetsTyped; a nil map becomes the empty one, as which it is modelled anyway.
unfoldable pub resolve_magnets_typed : Faults → List Bytes → Db → Result (List (Bytes × Bytes))
resolve_magnets_typed fails hashes db = resolve_magnets fails hashes db

pub record RawItemResult : Type 0 where
  pub id : ℕ
  pub source : Bytes
  pub source_id : Bytes
  pub title : Bytes
  pub url : Bytes
  pub published_at : Bytes

pub record ClaimItemResult : Type 0 where
  pub infohash : Bytes
  pub claim_token : ℕ
  pub attempt_count : ℕ
  pub lease_expires_at : Bytes
  pub raw_items : List RawItemResult

pub record ReleaseItemResult : Type 0 where
  pub infohash : Bytes
  pub ref : Bytes
  pub title : Bytes
  pub size_bytes : Int64
  pub published_at : Bytes
  pub confidence : Float64
  pub sources : List Bytes

pub record ListReleasesResult : Type 0 where
  pub releases : List ReleaseItemResult
  pub next_cursor : Option Bytes

pub record RawItemDetailResult : Type 0 where
  pub id : ℕ
  pub source : Bytes
  pub source_id : Bytes
  pub title : Bytes
  pub url : Option Bytes
  pub published_at : Bytes
  pub ingested_at : Bytes

pub record MatchEventItemResult : Type 0 where
  pub id : ℕ
  pub status : MatchStatus
  pub ref : Option Bytes
  pub confidence : Option Float64
  pub reason : Option Bytes
  pub created_at : Bytes

pub record GetReleaseResult : Type 0 where
  pub infohash : Bytes
  pub title : Bytes
  pub magnet : Option Bytes
  pub size_bytes : Option Int64
  pub published_at : Bytes
  pub sources : List Bytes
  pub match_status : MatchStatus
  pub ref : Option Bytes
  pub confidence : Option Float64
  pub first_matched_at : Option Bytes
  pub attempt_count : ℕ
  pub created_at : Bytes
  pub updated_at : Bytes
  pub raw_items : List RawItemDetailResult
  pub match_events : List MatchEventItemResult

-- The results in which times are texts, by time.Time.Format for RFC3339Nano.
module _ (format_time : Time → Bytes) where
  pub raw_item_result : RawItemDetail → RawItemResult
  raw_item_result i = record {
    id = i.id;
    source = i.source;
    source_id = i.source_id;
    title = i.title;
    url = default_to [] i.url;
    published_at = format_time i.published_at;
  }

  pub claim_item_result : ClaimedRelease → ClaimItemResult
  claim_item_result i = record {
    infohash = i.infohash;
    claim_token = i.claim_token;
    attempt_count = i.attempt_count;
    lease_expires_at = format_time i.lease_expires;
    raw_items = map raw_item_result i.raw_items;
  }

  pub claim_typed :
      Faults → ℕ → Time → (Bytes → Bool) → ClaimParams → Db → Db × Result (List ClaimItemResult)
  claim_typed fails m now locked req db =
      let (db', out) = claim fails m now locked req db in
      (db', out >>= λ items. ok (map claim_item_result items))

  pub release_item_result : ReleaseItem → ReleaseItemResult
  release_item_result r = record {
    infohash = r.infohash;
    ref = r.ref;
    title = r.title;
    size_bytes = r.size_bytes;
    published_at = format_time r.published_at;
    confidence = r.confidence;
    sources = r.sources;
  }

  pub list_releases_typed : Codec → Faults → ReleaseQuery → Db → Result ListReleasesResult
  list_releases_typed codec fails req db = list_releases codec fails req db >>= λ page. ok (record {
    releases = map release_item_result page.releases;
    next_cursor = null_if_empty page.next_cursor;
  })

  pub raw_item_detail_result : RawItemDetail → RawItemDetailResult
  raw_item_detail_result i = record {
    id = i.id;
    source = i.source;
    source_id = i.source_id;
    title = i.title;
    url = i.url;
    published_at = format_time i.published_at;
    ingested_at = format_time i.ingested_at;
  }

  pub match_event_result : MatchEventDetail → MatchEventItemResult
  match_event_result e = record {
    id = e.id;
    status = e.status;
    ref = e.ref;
    confidence = e.confidence;
    reason = e.reason;
    created_at = format_time e.created_at;
  }

  pub get_release_result : ReleaseDetail → GetReleaseResult
  get_release_result d = record {
    infohash = d.infohash;
    title = d.title;
    magnet = d.magnet;
    size_bytes = d.size_bytes;
    published_at = format_time d.published_at;
    sources = d.sources;
    match_status = d.match_status;
    ref = d.ref;
    confidence = d.confidence;
    first_matched_at = map_option format_time d.first_matched_at;
    attempt_count = d.attempt_count;
    created_at = format_time d.created_at;
    updated_at = format_time d.updated_at;
    raw_items = map raw_item_detail_result d.raw_items;
    match_events = map match_event_result d.match_events;
  }

  -- GetReleaseTyped: any spelling of an infohash is looked up by its canonical one.
  unfoldable pub get_release_of : Faults → Db → Result Bytes → Result GetReleaseResult
  get_release_of fails db (err e) = err invalid_input
  get_release_of fails db (ok ih) = get_release fails ih db >>= λ d. ok (get_release_result d)

  unfoldable pub get_release_typed : Faults → Bytes → Db → Result GetReleaseResult
  get_release_typed fails text db = get_release_of fails db (normalize_infohash text)

-- QueueStatsTyped copies the counts.
pub queue_stats_typed : Faults → ℕ → Time → Db → Result QueueStats
queue_stats_typed fails m now db = queue_stats fails m now db
