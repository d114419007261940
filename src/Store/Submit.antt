-- ===== src/Store/Submit.antt =====
-- internal/store/postgres/store.go, Submit: the matcher's outcome for a claimed release, fenced by
-- the claim token, in one transaction.
pub mod Keeps
pub mod Fence
pub mod Once
pub mod Refuse
pub mod Outcome
pub mod Moves
pub mod Tests
use takuhai.Base.{
  Bool, Bytes, Int64, Option, Time, [], false, if◌then◌else◌, leb, ltb, none, not, some, ℕ, ◌++◌,
  ◌+◌, ◌==◌, ◌||◌, ◌∷◌,
}
use takuhai.Errors.{
  Result, ok, err, database_failure, invalid_status, no_such_release, stale_lease, no_active_lease,
  ◌>>=◌,
}
use takuhai.Cursor.Ref.{validate_ref}
use takuhai.Store.{
  Db, Release, MatchEvent, MatchStatus, Float64, Faults, begin_tx, load_lease, update_release,
  append_event, commit_tx, is_unmatched, find_release, update_where,
}

-- The status text of a submission, by the cases of the source's switches.
pub data SubmitStatus : Type 0 where
  matched unmatched suppressed unknown : SubmitStatus

pub record SubmitParams : Type 0 where
  pub infohash : Bytes
  pub claim_token : Int64
  pub status : SubmitStatus
  pub ref : Bytes
  pub confidence : Option Float64
  pub reason : Bytes

unfoldable pub validate_submit : SubmitParams → Result (Unit {0})
validate_submit p = elim p.status [
  | matched ↦ validate_ref p.ref
  | unmatched ↦ ok tt
  | suppressed ↦ ok tt
  | unknown ↦ err invalid_status
]

-- currentToken != p.ClaimToken || leaseExpires == nil || !leaseExpires.After(now)
pub is_live : Option Time → Time → Bool
is_live none now = false
is_live (some t) now = ltb now t

pub is_stale : SubmitParams → Time → Release → Bool
is_stale p now r = not (r.claim_token == p.claim_token) || not (is_live r.lease_expires_at now)

-- The attempts after the submission, and the status that it comes to.
pub new_attempts : SubmitStatus → ℕ → ℕ
new_attempts unmatched n = n + 1
new_attempts _ n = n

pub final_status : ℕ → SubmitStatus → ℕ → Option MatchStatus
final_status max_attempts matched attempts = some MatchStatus.matched
final_status max_attempts suppressed attempts = some MatchStatus.suppressed
final_status max_attempts unmatched attempts =
    some (if leb max_attempts attempts then MatchStatus.exhausted else MatchStatus.unmatched)
final_status max_attempts unknown attempts = none

nullable_ref : MatchStatus → Bytes → Option Bytes
nullable_ref MatchStatus.matched ref = some ref
nullable_ref _ ref = none

nullable_confidence : MatchStatus → Option Float64 → Option Float64
nullable_confidence MatchStatus.matched c = c
nullable_confidence MatchStatus.suppressed c = c
nullable_confidence _ c = none

first_match : Option Time → Time → Option Time
first_match none now = some now
first_match (some t) now = some t

-- The UPDATE of each final status.
pub resolve : SubmitParams → Time → ℕ → MatchStatus → Release → Release
unfolding nullable_confidence first_match
resolve p now attempts MatchStatus.matched r = record r {
  match_status = MatchStatus.matched;
  ref = some p.ref;
  confidence = nullable_confidence MatchStatus.matched p.confidence;
  first_matched_at = first_match r.first_matched_at now;
  claimed_at = none;
  lease_expires_at = none;
  updated_at = now;
}
resolve p now attempts MatchStatus.unmatched r = record r {
  attempt_count = attempts;
  updated_at = now;
}
resolve p now attempts MatchStatus.suppressed r = record r {
  match_status = MatchStatus.suppressed;
  attempt_count = attempts;
  ref = none;
  confidence = none;
  claimed_at = none;
  lease_expires_at = none;
  updated_at = now;
}
resolve p now attempts MatchStatus.exhausted r = record r {
  match_status = MatchStatus.exhausted;
  attempt_count = attempts;
  ref = none;
  confidence = none;
  claimed_at = none;
  lease_expires_at = none;
  updated_at = now;
}

event_for : SubmitParams → Time → ℕ → MatchStatus → MatchEvent
unfolding nullable_ref nullable_confidence
event_for p now id status = record {
  id = id;
  infohash = p.infohash;
  status = status;
  ref = nullable_ref status p.ref;
  confidence = nullable_confidence status p.confidence;
  reason = p.reason;
  created_at = now;
}

-- The row updated and the event appended.
pub apply_submit : SubmitParams → Time → ℕ → MatchStatus → Db → Db
unfolding event_for
apply_submit p now attempts status db = record db {
  releases = update_where p.infohash (resolve p now attempts status) db.releases;
  match_events = db.match_events ++ event_for p now db.next_event status ∷ [];
  next_event = db.next_event + 1;
}

-- The checks on the row, and the tables before the commit.
pub submit_row : Faults → ℕ → Time → SubmitParams → Db → Option Release → Result Db
submit_row fails max_attempts now p db none = err no_such_release
submit_row fails max_attempts now p db (some r) =
    if is_stale p now r
    then err stale_lease
    else if not (is_unmatched r.match_status)
    then err no_active_lease
    else elim (final_status max_attempts p.status (new_attempts p.status r.attempt_count)) [
      | none ↦ err invalid_status
      | some status ↦
          if fails update_release || fails append_event || fails commit_tx
          then err database_failure
          else ok (apply_submit p now (new_attempts p.status r.attempt_count) status db)
    ]

-- A transaction that is not committed is rolled back.
pub settle : Db → Result Db → Db × Result (Unit {0})
settle db (err e) = (db, err e)
settle db (ok db') = (db', ok tt)

-- The transaction: what it would commit.
pub submit_tx : Faults → ℕ → Time → SubmitParams → Db → Result Db
submit_tx fails max_attempts now p db = validate_submit p >>= λ _.
    if fails begin_tx || fails load_lease
    then err database_failure
    else submit_row fails max_attempts now p db (find_release p.infohash db.releases)

pub submit : Faults → ℕ → Time → SubmitParams → Db → Db × Result (Unit {0})
unfolding settle
submit fails max_attempts now p db = settle db (submit_tx fails max_attempts now p db)
