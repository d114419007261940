-- ===== src/Store/Ingest.antt =====
-- internal/store/postgres/store.go, IngestN: a crawled post becomes evidence for its infohash, in
-- one transaction.
pub mod Keeps
pub mod Again
pub mod Seen
pub mod Grows
pub mod Moves
pub mod Tests
use takuhai.Base.{
  Bool, Bytes, Int64, List, Option, Time, [], bytes_eq, bytes_lt, false, find_if, if◌then◌else◌,
  ltb, min, none, not, some, true, ℕ, ◌&&◌, ◌++◌, ◌+◌, ◌==◌, ◌∷◌,
}
use takuhai.Errors.{Result, ok, err, database_failure, ◌>>=◌}
use takuhai.Store.{
  Db, Release, RawItem, MatchStatus, Faults, begin_tx, upsert_release, insert_raw_item, recompute,
  commit_tx, find_release, update_where, items_for, is_canonical_infohash,
}

pub record IngestParams : Type 0 where
  pub infohash : Bytes
  pub source : Bytes
  pub source_id : Bytes
  pub title : Bytes
  pub url : Bytes
  pub magnet : Bytes
  pub size_bytes : Int64
  pub published_at : Time

-- Of the four flags of the source's record exactly one is ever set.
pub data IngestOutcome : Type 0 where
  new updated duplicate conflict : IngestOutcome

-- ingestSeeds: the empty magnet and the size 0 are stored as NULL.
pub seed_magnet : IngestParams → Option Bytes
seed_magnet p = if bytes_eq p.magnet [] then none else some p.magnet

pub seed_size : IngestParams → Option Int64
seed_size p = if p.size_bytes == 0 then none else some p.size_bytes

pub coalesce {ℓ} : {A : Type ℓ} → Option A → Option A → Option A
coalesce none y = y
coalesce (some x) y = some x

pub new_release : IngestParams → Time → Release
new_release p now = record {
  infohash = p.infohash;
  title = p.title;
  magnet = seed_magnet p;
  size_bytes = seed_size p;
  published_at = p.published_at;
  sources = p.source ∷ [];
  match_status = MatchStatus.unmatched;
  ref = none;
  confidence = none;
  first_matched_at = none;
  attempt_count = 0;
  claimed_at = none;
  lease_expires_at = none;
  claim_token = 0;
  created_at = now;
  updated_at = now;
}

pub new_item : IngestParams → ℕ → Time → RawItem
new_item p id now = record {
  id = id;
  infohash = p.infohash;
  source = p.source;
  source_id = p.source_id;
  title = p.title;
  url = p.url;
  published_at = p.published_at;
  ingested_at = now;
}

-- The unique key of a raw item.
abbrev pub same_post : Bytes → Bytes → RawItem → Bool
same_post source source_id i = bytes_eq i.source source && bytes_eq i.source_id source_id

-- The first of ORDER BY published_at DESC, id DESC; the items come by rising id.
pub latest : RawItem → List RawItem → RawItem
latest best [] = best
latest best (i ∷ items) = latest (if ltb i.published_at best.published_at then best else i) items

-- min(published_at)
pub earliest : Time → List RawItem → Time
earliest t [] = t
earliest t (i ∷ items) = earliest (min t i.published_at) items

-- array_agg(DISTINCT source ORDER BY source)
pub insert_source : Bytes → List Bytes → List Bytes
insert_source s [] = s ∷ []
insert_source s (t ∷ ts) =
    if bytes_eq s t then t ∷ ts else if bytes_lt s t then s ∷ t ∷ ts else t ∷ insert_source s ts

pub distinct_sources : List RawItem → List Bytes
distinct_sources [] = []
distinct_sources (i ∷ items) = insert_source i.source (distinct_sources items)

-- The fields that recomputeRepresentative sets, from the evidence for the release.
pub represent : IngestParams → Time → RawItem → List RawItem → Release → Release
represent p now first rest r = record r {
  title = (latest first rest).title;
  published_at = earliest first.published_at rest;
  sources = distinct_sources (first ∷ rest);
  magnet = coalesce r.magnet (seed_magnet p);
  size_bytes = coalesce r.size_bytes (seed_size p);
  updated_at = now;
}

-- With no evidence the subqueries would give NULL, which the columns refuse.
pub recompute_with : IngestParams → Time → List RawItem → Db → Result Db
recompute_with p now [] db = err database_failure
recompute_with p now (first ∷ rest) db =
    ok (record db { releases = update_where p.infohash (represent p now first rest) db.releases })

pub recompute_representative : Faults → IngestParams → Time → Db → Result Db
recompute_representative fails p now db =
    if fails recompute
    then err database_failure
    else recompute_with p now (items_for p.infohash db.raw_items) db

-- INSERT INTO releases … ON CONFLICT (infohash) DO UPDATE SET infohash: whether a row was created.
pub upsert : IngestParams → Time → Db → Db × Bool
upsert p now db = elim (find_release p.infohash db.releases) [
  | none ↦ (record db { releases = db.releases ++ new_release p now ∷ [] }, true)
  | some r ↦ (db, false)
]

-- INSERT INTO raw_items … ON CONFLICT (source, source_id) DO NOTHING: whether a row was inserted.
pub insert_item : IngestParams → Time → Db → Db × Bool
insert_item p now db = elim (find_if (same_post p.source p.source_id) db.raw_items) [
  | none ↦ (
    record db {
      raw_items = db.raw_items ++ new_item p db.next_item now ∷ [];
      next_item = db.next_item + 1;
    },
    true,
  )
  | some i ↦ (db, false)
]

-- The recomputation is for new evidence on a release that was there before.
pub after_insert : Faults → IngestParams → Time → Bool → Bool → Db → Result (Bool × Bool × Db)
after_insert fails p now false true db =
    recompute_representative fails p now db >>= λ db'. ok (false, true, db')
after_insert fails p now created inserted db = ok (created, inserted, db)

-- upsertTx: created, inserted and the tables before the commit.
pub upsert_tx : Faults → IngestParams → Time → Db → Result (Bool × Bool × Db)
upsert_tx fails p now db =
    let (db1, created) = upsert p now db in
    let (db2, inserted) = insert_item p now db1 in
    if fails upsert_release
    then err database_failure
    else if fails insert_raw_item
    then err database_failure
    else after_insert fails p now created inserted db2

-- A transaction that is not committed is rolled back.
pub settle : Faults → Db → Result (Bool × Bool × Db) → Db × Result IngestOutcome
settle fails db (err e) = (db, err e)
settle fails db (ok (created, inserted, db')) =
    if created && not inserted
    then (db, ok conflict)
    else if fails commit_tx
    then (db, err database_failure)
    else (db', ok (if created then new else if inserted then updated else duplicate))

pub ingest_n : Faults → Time → IngestParams → Db → Db × Result IngestOutcome
ingest_n fails now p db =
    if not (is_canonical_infohash p.infohash)
    then (db, ok duplicate)
    else if fails begin_tx
    then (db, err database_failure)
    else settle fails db (upsert_tx fails p now db)
