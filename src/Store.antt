-- ===== src/Store.antt =====
-- internal/store/store.go and the tables of db/migrations: the rows that the store keeps.
pub mod Rows
pub mod Lifecycle
pub mod Invariant
pub mod Ingest
pub mod Claim
pub mod Submit
pub mod Reach
pub mod Stats
pub mod Query
mod Tests
pub mod Listing
use takuhai.Base.{
  Bool, Bytes, Int64, List, Option, Time, [], all_if, bytes_eq, false, find_if, if◌then◌else◌, leb,
  length, ltb, map, none, not, select, some, true, ℕ, ◌&&◌, ◌==◌, ◌||◌, ◌∷◌,
}

-- A float64 by its bit pattern: the store only copies confidences. The pattern of 0 is 0.
abbrev pub Float64 : Type 0
Float64 = ℕ

pub data MatchStatus : Type 0 where
  unmatched matched suppressed exhausted : MatchStatus

pub record Release : Type 0 where
  pub infohash : Bytes
  pub title : Bytes
  pub magnet : Option Bytes
  pub size_bytes : Option Int64
  pub published_at : Time
  pub sources : List Bytes
  pub match_status : MatchStatus
  pub ref : Option Bytes
  pub confidence : Option Float64
  pub first_matched_at : Option Time
  pub attempt_count : ℕ
  pub claimed_at : Option Time
  pub lease_expires_at : Option Time
  pub claim_token : ℕ
  pub created_at : Time
  pub updated_at : Time

pub record RawItem : Type 0 where
  pub id : ℕ
  pub infohash : Bytes
  pub source : Bytes
  pub source_id : Bytes
  pub title : Bytes
  pub url : Bytes
  pub published_at : Time
  pub ingested_at : Time

pub record MatchEvent : Type 0 where
  pub id : ℕ
  pub infohash : Bytes
  pub status : MatchStatus
  pub ref : Option Bytes
  pub confidence : Option Float64
  pub reason : Bytes
  pub created_at : Time

-- The three tables, each in the order of insertion, and the counters behind their serial ids. Gaps
-- that a rolled back insertion leaves in the ids are not modelled.
pub record Db : Type 0 where
  pub releases : List Release
  pub raw_items : List RawItem
  pub match_events : List MatchEvent
  pub next_item : ℕ
  pub next_event : ℕ

-- The calls of the database, each of which may fail.
pub data Call : Type 0 where
  begin_tx upsert_release insert_raw_item recompute exhaust_old select_lease load_raw_items
        load_events load_lease update_release append_event run_query commit_tx :
      Call

-- Which calls fail during one operation.
abbrev pub Faults : Type 0
Faults = Call → Bool

abbrev pub healthy : Faults
healthy call = false

abbrev pub is_unmatched : MatchStatus → Bool
is_unmatched MatchStatus.unmatched = true
is_unmatched _ = false

abbrev pub is_matched : MatchStatus → Bool
is_matched MatchStatus.matched = true
is_matched _ = false

-- lease_expires_at IS NULL OR lease_expires_at <= now
abbrev pub is_free : Option Time → Time → Bool
is_free none now = true
is_free (some t) now = leb t now

abbrev pub has_infohash : Bytes → Release → Bool
has_infohash h r = bytes_eq r.infohash h

-- The row of a primary key.
abbrev pub find_release : Bytes → List Release → Option Release
find_release h = find_if (has_infohash h)

-- UPDATE releases SET … WHERE infohash = h
abbrev pub update_where : Bytes → (Release → Release) → List Release → List Release
update_where h f rs = map (λ r. if has_infohash h r then f r else r) rs

-- The raw items of an infohash, by id.
abbrev pub items_for : Bytes → List RawItem → List RawItem
items_for h = select (λ i. bytes_eq i.infohash h)

-- NULLIF(text, '')
abbrev pub null_if_empty : Bytes → Option Bytes
null_if_empty [] = none
null_if_empty (c ∷ cs) = some (c ∷ cs)

pub record RawItemDetail : Type 0 where
  pub id : ℕ
  pub source : Bytes
  pub source_id : Bytes
  pub title : Bytes
  pub url : Option Bytes
  pub published_at : Time
  pub ingested_at : Time

-- rawItemsFor: the evidence as it is shown.
abbrev pub item_detail : RawItem → RawItemDetail
item_detail i = record {
  id = i.id;
  source = i.source;
  source_id = i.source_id;
  title = i.title;
  url = null_if_empty i.url;
  published_at = i.published_at;
  ingested_at = i.ingested_at;
}

abbrev pub raw_items_for : Bytes → List RawItem → List RawItemDetail
raw_items_for h items = map item_detail (items_for h items)

-- isCanonicalInfohash
unfoldable pub is_canonical_infohash : Bytes → Bool
is_canonical_infohash s =
    if not (length s == 40)
    then false
    else all_if (λ c. not ((ltb c b'0' || ltb b'9' c) && (ltb c b'a' || ltb b'f' c))) s
