-- ===== src/Store/Query.antt =====
-- internal/store/postgres/store.go, GetRelease and ResolveMagnets: reads of the tables.
pub mod Lookup
use takuhai.Base.{
  Bool, Bytes, Int64, List, Option, Time, [], any_if, bytes_eq, if◌then◌else◌, length, ltb, map,
  none, select, some, ℕ, ◌&&◌, ◌==◌, ◌||◌, ◌∷◌,
}
use takuhai.Errors.{Result, ok, err, database_failure, no_such_release, batch_exceeds_cap}
use takuhai.Store.{
  Db, Release, RawItem, RawItemDetail, MatchEvent, MatchStatus, Float64, Faults, begin_tx,
  run_query, load_raw_items, load_events, commit_tx, find_release, raw_items_for, null_if_empty,
}
use takuhai.Store.Claim.{sort_by}

pub record MatchEventDetail : Type 0 where
  pub id : ℕ
  pub status : MatchStatus
  pub ref : Option Bytes
  pub confidence : Option Float64
  pub reason : Option Bytes
  pub created_at : Time

pub record ReleaseDetail : Type 0 where
  pub infohash : Bytes
  pub title : Bytes
  pub magnet : Option Bytes
  pub size_bytes : Option Int64
  pub published_at : Time
  pub sources : List Bytes
  pub match_status : MatchStatus
  pub ref : Option Bytes
  pub confidence : Option Float64
  pub first_matched_at : Option Time
  pub attempt_count : ℕ
  pub created_at : Time
  pub updated_at : Time
  pub raw_items : List RawItemDetail
  pub match_events : List MatchEventDetail

-- ORDER BY created_at ASC, id ASC
pub event_before : MatchEvent → MatchEvent → Bool
event_before a b = ltb a.created_at b.created_at || (a.created_at == b.created_at && ltb a.id b.id)

abbrev pub event_detail : MatchEvent → MatchEventDetail
event_detail e = record {
  id = e.id;
  status = e.status;
  ref = e.ref;
  confidence = e.confidence;
  reason = null_if_empty e.reason;
  created_at = e.created_at;
}

-- releaseMatchEvents
pub release_match_events : Bytes → List MatchEvent → List MatchEventDetail
release_match_events h es =
    map event_detail (sort_by event_before (select (λ e. bytes_eq e.infohash h) es))

pub release_detail : Db → Release → ReleaseDetail
release_detail db r = record {
  infohash = r.infohash;
  title = r.title;
  magnet = r.magnet;
  size_bytes = r.size_bytes;
  published_at = r.published_at;
  sources = r.sources;
  match_status = r.match_status;
  ref = r.ref;
  confidence = r.confidence;
  first_matched_at = r.first_matched_at;
  attempt_count = r.attempt_count;
  created_at = r.created_at;
  updated_at = r.updated_at;
  raw_items = raw_items_for r.infohash db.raw_items;
  match_events = release_match_events r.infohash db.match_events;
}

-- A repeatable read, so the three queries see the same tables.
pub get_release : Faults → Bytes → Db → Result ReleaseDetail
get_release fails h db =
    if fails begin_tx || fails run_query
    then err database_failure
    else elim (find_release h db.releases) [
      | none ↦ err no_such_release
      | some r ↦
          if fails load_raw_items || fails load_events || fails commit_tx
          then err database_failure
          else ok (release_detail db r)
    ]

abbrev pub max_magnets_batch : ℕ
max_magnets_batch = 500

-- The rows of infohash = ANY(hashes) with a magnet, as the entries of the resulting map.
unfoldable pub magnet_entries : List Bytes → List Release → List (Bytes × Bytes)
magnet_entries hashes [] = []
magnet_entries hashes (r ∷ rs) = elim r.magnet [
  | none ↦ magnet_entries hashes rs
  | some m ↦
      if any_if (bytes_eq r.infohash) hashes
      then (r.infohash, m) ∷ magnet_entries hashes rs
      else magnet_entries hashes rs
]

unfoldable pub resolve_magnets : Faults → List Bytes → Db → Result (List (Bytes × Bytes))
resolve_magnets fails hashes db =
    if ltb max_magnets_batch (length hashes)
    then err batch_exceeds_cap
    else if length hashes == 0
    then ok []
    else if fails run_query
    then err database_failure
    else ok (magnet_entries hashes db.releases)
