-- ===== src/Store/Stats.antt =====
-- internal/store/postgres/store.go, QueueStats and CatalogStats: the counts over the tables.
pub mod Counts
use takuhai.Base.{
  Bool, Bytes, List, Option, Time, [], any_if, bytes_eq, count_if, false, if◌then◌else◌, length,
  none, not, some, true, ℕ, ◌&&◌, ◌+◌, ◌∷◌,
}
use takuhai.Errors.{Result, ok, err, database_failure}
use takuhai.Store.{Db, Release, MatchStatus, Faults, run_query, is_unmatched, is_matched, is_free}
use takuhai.Store.Claim.{is_claimable}

pub record QueueStats : Type 0 where
  pub available : ℕ
  pub leased : ℕ
  pub unmatched : ℕ
  pub matched : ℕ
  pub suppressed : ℕ
  pub exhausted : ℕ

pub record CatalogStats : Type 0 where
  pub raw_posts : ℕ
  pub infohashes : ℕ
  pub refs : ℕ

abbrev is_suppressed : MatchStatus → Bool
is_suppressed MatchStatus.suppressed = true
is_suppressed _ = false

abbrev is_exhausted : MatchStatus → Bool
is_exhausted MatchStatus.exhausted = true
is_exhausted _ = false

-- lease_expires_at IS NOT NULL AND lease_expires_at > now, on an unmatched row
unfoldable pub is_leased : Time → Release → Bool
is_leased now r = is_unmatched r.match_status && not (is_free r.lease_expires_at now)

unfoldable pub count_queue : ℕ → Time → List Release → QueueStats
unfolding is_leased
count_queue max_attempts now rs = record {
  available = count_if (is_claimable max_attempts now) rs;
  leased = count_if (is_leased now) rs;
  unmatched = count_if (λ r. is_unmatched r.match_status) rs;
  matched = count_if (λ r. is_matched r.match_status) rs;
  suppressed = count_if (λ r. is_suppressed r.match_status) rs;
  exhausted = count_if (λ r. is_exhausted r.match_status) rs;
}

unfoldable pub queue_stats : Faults → ℕ → Time → Db → Result QueueStats
queue_stats fails max_attempts now db =
    if fails run_query then err database_failure else ok (count_queue max_attempts now db.releases)

-- Whether a ref counts that no later row repeats: ref IS NOT NULL AND ref <> '', DISTINCT.
unfoldable pub same_ref : Bytes → Release → Bool
same_ref ref r = elim r.ref [ none ↦ false | some other ↦ bytes_eq other ref ]

unfoldable pub counts_ref : Option Bytes → List Release → Bool
counts_ref none rs = false
counts_ref (some ref) rs = not (bytes_eq ref []) && not (any_if (same_ref ref) rs)

unfoldable pub count_refs : List Release → ℕ
count_refs [] = 0
count_refs (r ∷ rs) = (if counts_ref r.ref rs then 1 else 0) + count_refs rs

unfoldable pub catalog_stats : Faults → Db → Result CatalogStats
catalog_stats fails db =
    if fails run_query
    then err database_failure
    else ok (record {
      raw_posts = length db.raw_items;
      infohashes = length db.releases;
      refs = count_refs db.releases;
    })
