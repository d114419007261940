-- ===== src/Store/Invariant.antt =====
-- The invariant of the table of releases.
use takuhai.Base.{All, Bytes, Time, arith, none, some, true, ℕ, ◌<◌, ◌∙◌, ◌≡◌, ◌≤◌}
use takuhai.Errors.{ok}
use takuhai.Cursor.Ref.{validate_ref}
use takuhai.Store.{Db, Release, MatchStatus, is_canonical_infohash}
use takuhai.Store.Rows.{UniqueKeys}

-- What a row of each status holds, for a cap of m failed attempts: only a matched row has a ref,
-- which is well formed, and a first match; only an unmatched row may be leased; attempts reach the
-- cap exactly on exhausted rows.
abbrev pub Shape : ℕ → MatchStatus → Release → Type 0
Shape m MatchStatus.unmatched r =
    (r.ref ≡ none) × (r.confidence ≡ none) × (r.first_matched_at ≡ none) × (r.attempt_count < m)
Shape m MatchStatus.matched r =
    (ref : Bytes) × (first : Time) × (r.ref ≡ some ref)
    × (validate_ref ref ≡ ok tt)
    × (r.first_matched_at ≡ some first)
    × (r.lease_expires_at ≡ none)
    × (r.claimed_at ≡ none)
    × (r.attempt_count < m)
Shape m MatchStatus.suppressed r =
    (r.ref ≡ none)
    × (r.confidence ≡ none)
    × (r.first_matched_at ≡ none)
    × (r.lease_expires_at ≡ none)
    × (r.claimed_at ≡ none)
    × (r.attempt_count < m)
Shape m MatchStatus.exhausted r =
    (r.ref ≡ none)
    × (r.confidence ≡ none)
    × (r.first_matched_at ≡ none)
    × (r.lease_expires_at ≡ none)
    × (r.claimed_at ≡ none)
    × (m ≤ r.attempt_count)

abbrev pub RowValid : ℕ → Release → Type 0
RowValid m r = Shape m r.match_status r × (is_canonical_infohash r.infohash ≡ true)

pub record Inv (m : ℕ) (db : Db) : Type 0 where
  pub keys : UniqueKeys db.releases
  pub rows : All (RowValid m) db.releases

-- A step that changes none of the fields that Shape reads.
pub Shape-same :
    (m : ℕ) (s : MatchStatus) (r q : Release)
    → q.ref ≡ r.ref
    → q.confidence ≡ r.confidence
    → q.first_matched_at ≡ r.first_matched_at
    → q.lease_expires_at ≡ r.lease_expires_at
    → q.claimed_at ≡ r.claimed_at
    → q.attempt_count ≡ r.attempt_count
    → Shape m s r
    → Shape m s q
Shape-same m MatchStatus.unmatched r q a b c d e f (h1, h2, h3, h4) =
    (a ∙ h1, b ∙ h2, c ∙ h3, omega arith)
Shape-same m MatchStatus.matched r q a b c d e f (ref, first, h1, h2, h3, h4, h5, h6) =
    (ref, first, a ∙ h1, h2, c ∙ h3, d ∙ h4, e ∙ h5, omega arith)
Shape-same m MatchStatus.suppressed r q a b c d e f (h1, h2, h3, h4, h5, h6) =
    (a ∙ h1, b ∙ h2, c ∙ h3, d ∙ h4, e ∙ h5, omega arith)
Shape-same m MatchStatus.exhausted r q a b c d e f (h1, h2, h3, h4, h5, h6) =
    (a ∙ h1, b ∙ h2, c ∙ h3, d ∙ h4, e ∙ h5, omega arith)
