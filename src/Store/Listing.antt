-- ===== src/Store/Listing.antt =====
-- internal/store/postgres/store.go, ListReleases: pages of the matched releases, by keyset cursors.
pub mod Order
pub mod Sorted
pub mod Seek
pub mod Follow
pub mod Pages
mod Tests
use takuhai.Base.{
  Bool, Bytes, Int64, List, Option, Time, [], bytes_eq, bytes_lt, false, if◌then◌else◌, is_nonpos,
  length, ltb, map, none, select, some, take, true, ℕ, ◌&&◌, ◌+◌, ◌==◌, ◌||◌, ◌∷◌,
}
use takuhai.Errors.{Result, ok, err, database_failure, invalid_cursor, ◌>>=◌}
use takuhai.Cursor.Ref.{validate_ref}
use takuhai.Cursor.Token.{CursorPath, catalog, delta, Cursor, Codec, encode, decode}
use takuhai.Store.{Db, Release, MatchStatus, Float64, Faults, run_query, is_matched}
use takuhai.Store.Claim.{sort_by}

pub record ReleaseQuery : Type 0 where
  pub ref : Bytes
  pub since : Option Time
  pub limit : Int64
  pub cursor : Bytes

pub record ReleaseItem : Type 0 where
  pub infohash : Bytes
  pub ref : Bytes
  pub title : Bytes
  pub size_bytes : Int64
  pub published_at : Time
  pub confidence : Float64
  pub sources : List Bytes

pub record ReleasePage : Type 0 where
  pub releases : List ReleaseItem
  pub next_cursor : Bytes

abbrev pub default_releases_limit : ℕ
default_releases_limit = 50

abbrev pub max_releases_limit : ℕ
max_releases_limit = 500

pub releases_limit : Int64 → ℕ
releases_limit n =
    let limit = if is_nonpos n then default_releases_limit else n in
    if ltb max_releases_limit limit then max_releases_limit else limit

pub query_path : Option Time → CursorPath
query_path none = catalog
query_path (some t) = delta

abbrev pub default_to {ℓ} : {A : Type ℓ} → A → Option A → A
default_to a none = a
default_to a (some b) = b

-- The sort key; a row without a first match is in no delta page.
pub row_key : CursorPath → Release → Time
row_key catalog r = r.published_at
row_key delta r = default_to 0 r.first_matched_at

-- The row (ROW) comparison (key, infohash) < (seek.key, seek.infohash)
pub is_below : Time → Bytes → Time → Bytes → Bool
is_below k h k' h' = ltb k k' || (k == k' && bytes_lt h h')

-- The cursor's seek predicate; without a cursor there is none.
pub is_past : CursorPath → Option Cursor → Release → Bool
is_past path none r = true
is_past path (some c) r = is_below (row_key path r) r.infohash c.key c.infohash

-- first_matched_at > since
pub is_since : Option Time → Option Time → Bool
is_since none first = true
is_since (some t) none = false
is_since (some t) (some first) = ltb t first

-- The ref of a query; the empty one asks for every ref.
pub has_ref : Bytes → Option Bytes → Bool
has_ref [] o = true
has_ref (c ∷ cs) none = false
has_ref (c ∷ cs) (some ref) = bytes_eq ref (c ∷ cs)

-- The WHERE clause of the four queries.
pub is_listed : ReleaseQuery → Option Cursor → Release → Bool
is_listed q seek r =
    is_matched r.match_status
    && has_ref q.ref r.ref
    && is_since q.since r.first_matched_at
    && is_past (query_path q.since) seek r

-- ORDER BY key DESC, infohash DESC
pub row_before : CursorPath → Release → Release → Bool
row_before path a b = is_below (row_key path b) b.infohash (row_key path a) a.infohash

pub list_release_rows : ReleaseQuery → Option Cursor → ℕ → List Release → List Release
list_release_rows q seek fetch rs =
    take fetch (sort_by (row_before (query_path q.since)) (select (is_listed q seek) rs))

pub release_item : Release → ReleaseItem
release_item r = record {
  infohash = r.infohash;
  ref = default_to [] r.ref;
  title = r.title;
  size_bytes = default_to 0 r.size_bytes;
  published_at = r.published_at;
  confidence = default_to 0 r.confidence;
  sources = r.sources;
}

-- The cursor after the last row of a page.
pub cursor_at : ReleaseQuery → Release → Cursor
cursor_at q r =
    let path = query_path q.since in
    record { ref = q.ref; path = path; key = row_key path r; infohash = r.infohash }

pub next_cursor : Codec → ReleaseQuery → List Release → Bytes
next_cursor codec q [] = []
next_cursor codec q (r ∷ []) = encode codec (cursor_at q r)
next_cursor codec q (r ∷ r' ∷ rs) = next_cursor codec q (r' ∷ rs)

-- The page of the rows that were fetched, one more than the limit if there are more.
pub page_of : Codec → ReleaseQuery → ℕ → List Release → ReleasePage
page_of codec q limit keyed =
    let has_more = ltb limit (length keyed) in
    let kept = if has_more then take limit keyed else keyed in
    record {
      releases = map release_item kept;
      next_cursor = if has_more then next_cursor codec q kept else [];
    }

-- The ref is checked unless it is empty, then the cursor is bound to the ref and the path.
pub check_ref : Bytes → Result (Unit {0})
check_ref [] = ok tt
check_ref (c ∷ cs) = validate_ref (c ∷ cs)

pub seek_cursor : Codec → ReleaseQuery → Result (Option Cursor)
seek_cursor codec q =
    if bytes_eq q.cursor []
    then ok none
    else decode codec q.cursor q.ref (query_path q.since) >>= λ c. ok (some c)

pub list_releases : Codec → Faults → ReleaseQuery → Db → Result ReleasePage
list_releases codec fails q db = check_ref q.ref >>= λ _. seek_cursor codec q >>= λ seek.
    if fails run_query
    then err database_failure
    else ok (
        page_of codec q (releases_limit q.limit)
          (list_release_rows q seek (releases_limit q.limit + 1) db.releases))
