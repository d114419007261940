-- ===== src/Store/Claim.antt =====
-- internal/store/postgres/store.go, Claim: old attempts are exhausted, then free rows are leased,
-- newest first, in one transaction.
pub mod Picked
pub mod Keeps
pub mod Handed
pub mod Moves
pub mod Tests
use takuhai.Base.{
  Bool, Bytes, Int64, List, Time, [], add_time, bytes_eq, bytes_lt, false, if◌then◌else◌, is_nonpos,
  leb, length, ltb, map, mul64, none, not, select, some, take, ℕ, ◌&&◌, ◌+◌, ◌==◌, ◌||◌, ◌∷◌,
}
use takuhai.Errors.{Result, ok, err, database_failure}
use takuhai.Store.{
  Db, Release, RawItem, MatchStatus, Faults, begin_tx, exhaust_old, select_lease, load_raw_items,
  commit_tx, is_unmatched, is_free, RawItemDetail, raw_items_for,
}

pub record ClaimParams : Type 0 where
  pub limit : Int64
  pub lease_seconds : Int64

pub record ClaimedRelease : Type 0 where
  pub infohash : Bytes
  pub claim_token : ℕ
  pub attempt_count : ℕ
  pub lease_expires : Time
  pub raw_items : List RawItemDetail

abbrev pub default_claim_limit : ℕ
default_claim_limit = 1

abbrev pub max_claim_limit : ℕ
max_claim_limit = 500

abbrev pub default_lease_seconds : ℕ
default_lease_seconds = 300

-- NewStoreWithConfig: the cap on failed attempts.
unfoldable pub queue_max_attempts : Int64 → ℕ
queue_max_attempts n = if is_nonpos n then 3 else n

pub claim_limit : Int64 → ℕ
claim_limit n =
    let limit = if is_nonpos n then default_claim_limit else n in
    if ltb max_claim_limit limit then max_claim_limit else limit

-- now.Add(time.Duration(leaseSeconds) * time.Second); the product wraps at 64 bits.
pub lease_end : Time → Int64 → Time
lease_end now n =
    let seconds = if is_nonpos n then default_lease_seconds else n in
    add_time now (mul64 seconds 1_000_000_000)

pub is_spent : ℕ → Time → Release → Bool
is_spent max_attempts now r =
    is_unmatched r.match_status
    && leb max_attempts r.attempt_count
    && is_free r.lease_expires_at now

pub exhaust : Time → Release → Release
exhaust now r = record r {
  match_status = MatchStatus.exhausted;
  claimed_at = none;
  lease_expires_at = none;
  updated_at = now;
}

pub exhaust_spent : ℕ → Time → List Release → List Release
exhaust_spent max_attempts now rs =
    map (λ r. if is_spent max_attempts now r then exhaust now r else r) rs

unfoldable pub is_claimable : ℕ → Time → Release → Bool
is_claimable max_attempts now r =
    is_unmatched r.match_status
    && ltb r.attempt_count max_attempts
    && is_free r.lease_expires_at now

-- ORDER BY published_at DESC, infohash DESC
pub newer : Release → Release → Bool
newer a b =
    ltb b.published_at a.published_at
    || (a.published_at == b.published_at && bytes_lt b.infohash a.infohash)

unfoldable pub insert_by {ℓ} : {A : Type ℓ} → (A → A → Bool) → A → List A → List A
insert_by before x [] = x ∷ []
insert_by before x (y ∷ ys) = if before x y then x ∷ y ∷ ys else y ∷ insert_by before x ys

unfoldable pub sort_by {ℓ} : {A : Type ℓ} → (A → A → Bool) → List A → List A
sort_by before [] = []
sort_by before (x ∷ xs) = insert_by before x (sort_by before xs)

-- The rows that are leased. FOR UPDATE SKIP LOCKED passes over rows that other transactions hold.
pub chosen : ℕ → Time → ℕ → (Bytes → Bool) → List Release → List Release
chosen max_attempts now limit locked rs =
    take limit
      (sort_by newer (select (λ r. is_claimable max_attempts now r && not (locked r.infohash)) rs))

pub lease : Time → Time → Release → Release
lease now expires r = record r {
  claimed_at = some now;
  lease_expires_at = some expires;
  claim_token = r.claim_token + 1;
  updated_at = now;
}

pub is_among : List Release → Bytes → Bool
is_among [] h = false
is_among (r ∷ rs) h = bytes_eq r.infohash h || is_among rs h

pub lease_all : Time → Time → List Release → List Release → List Release
lease_all now expires picked rs =
    map (λ r. if is_among picked r.infohash then lease now expires r else r) rs

pub claimed_item : Time → List RawItem → Release → ClaimedRelease
claimed_item expires items r = record {
  infohash = r.infohash;
  claim_token = r.claim_token + 1;
  attempt_count = r.attempt_count;
  lease_expires = expires;
  raw_items = raw_items_for r.infohash items;
}

-- The transaction: what it would commit.
pub claim_tx :
    Faults → ℕ → Time → (Bytes → Bool) → ClaimParams → Db → Result (Db × List ClaimedRelease)
unfolding claimed_item
claim_tx fails max_attempts now locked p db =
    let expires = lease_end now p.lease_seconds in
    let rs = exhaust_spent max_attempts now db.releases in
    let picked = chosen max_attempts now (claim_limit p.limit) locked rs in
    if fails begin_tx || fails exhaust_old || fails select_lease
    then err database_failure
    else if fails load_raw_items && not (length picked == 0)
    then err database_failure
    else if fails commit_tx
    then err database_failure
    else ok (
      record db { releases = lease_all now expires picked rs },
      map (claimed_item expires db.raw_items) picked,
    )

-- A transaction that is not committed is rolled back.
pub settle : Db → Result (Db × List ClaimedRelease) → Db × Result (List ClaimedRelease)
settle db (err e) = (db, err e)
settle db (ok (db', items)) = (db', ok items)

pub claim :
    Faults → ℕ → Time → (Bytes → Bool) → ClaimParams → Db → Db × Result (List ClaimedRelease)
claim fails max_attempts now locked p db = settle db (claim_tx fails max_attempts now locked p db)
