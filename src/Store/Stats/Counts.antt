-- ===== src/Store/Stats/Counts.antt =====
-- The counts add up.
use takuhai.Base.{
  All, Bool-cases, List, Time, [], ap, arith, count_if, if◌then◌else◌, inl, inr, length, refl,
  subst, ℕ, ◌+◌, ◌∙◌, ◌∷◌, ◌≡◌, ◌≤◌,
}
use takuhai.Errors.{ok, ok-injective, guard-eq-ok, database_failure}
use takuhai.Store.{Db, Release, MatchStatus, Faults, is_unmatched, is_matched, run_query}
use takuhai.Store.Invariant.{RowValid, Shape, Inv}
use takuhai.Store.Claim.{is_claimable}
use takuhai.Store.Claim.Keeps.{is_unmatched→≡}
use takuhai.Store.Stats.{
  QueueStats, CatalogStats, is_suppressed, is_exhausted, is_leased, count_queue, queue_stats,
  counts_ref, count_refs, catalog_stats,
}

status_partition :
    (s : MatchStatus)
    → (if is_unmatched s then 1 else 0)
        + (if is_matched s then 1 else 0)
        + (if is_suppressed s then 1 else 0)
        + (if is_exhausted s then 1 else 0)
      ≡ 1
status_partition MatchStatus.unmatched = refl
status_partition MatchStatus.matched = refl
status_partition MatchStatus.suppressed = refl
status_partition MatchStatus.exhausted = refl

statuses-count :
    (m : ℕ) (now : Time) (rs : List Release)
    → let s = count_queue m now rs in
      s.unmatched + s.matched + s.suppressed + s.exhausted ≡ length rs
unfolding count_queue
statuses-count m now [] = refl
statuses-count m now (r ∷ rs) =
    omega (arith, status_partition r.match_status, statuses-count m now rs)

row-available :
    (m : ℕ) (now : Time) (r : Release)
    → RowValid m r
    → (if is_claimable m now r then 1 else 0) + (if is_leased now r then 1 else 0)
      ≡ (if is_unmatched r.match_status then 1 else 0)
unfolding is_claimable is_leased
row-available m now r (shape, c) = elim (Bool-cases (is_unmatched r.match_status)) [
  | inr other ↦ ground (arith, other)
  | inl u ↦
      let (_, _, _, few) = subst (λ t. Shape m t r) (is_unmatched→≡ r.match_status u) shape in
      ground (arith, u, few)
]

available-count :
    (m : ℕ) (now : Time) (rs : List Release)
    → All (RowValid m) rs
    → let s = count_queue m now rs in s.available + s.leased ≡ s.unmatched
unfolding count_queue
available-count m now [] v = refl
available-count m now (r ∷ rs) v =
    omega (arith, row-available m now r v.0, available-count m now rs v.1)

row-ref :
    (m : ℕ) (s : MatchStatus) (r : Release) (rs : List Release)
    → Shape m s r
    → (if counts_ref r.ref rs then 1 else 0) ≤ (if is_matched s then 1 else 0)
unfolding counts_ref
row-ref m MatchStatus.matched r rs h = ground arith
row-ref m MatchStatus.unmatched r rs h = rw (h.0, counts_ref) (omega arith)
row-ref m MatchStatus.suppressed r rs h = rw (h.0, counts_ref) (omega arith)
row-ref m MatchStatus.exhausted r rs h = rw (h.0, counts_ref) (omega arith)

refs-count :
    (m : ℕ) (rs : List Release)
    → All (RowValid m) rs
    → count_refs rs ≤ count_if (λ r. is_matched r.match_status) rs
unfolding count_refs
refs-count m [] v = omega arith
refs-count m (r ∷ rs) v = omega (arith, row-ref m r.match_status r rs v.0.0, refs-count m rs v.1)

-- The queue counts of one moment add up, in tables that satisfy the invariant: the four statuses
-- partition the catalog's infohashes, what is available and what is leased partition the unmatched
-- rows, and there are at most as many distinct refs as matched rows.
pub stats_add_up :
    (fails : Faults) (m : ℕ) (now : Time) (db : Db) (q : QueueStats) (c : CatalogStats)
    → Inv m db
    → queue_stats fails m now db ≡ ok q
    → catalog_stats fails db ≡ ok c
    → (q.unmatched + q.matched + q.suppressed + q.exhausted ≡ c.infohashes)
      × (q.available + q.leased ≡ q.unmatched)
      × (c.refs ≤ q.matched)
unfolding queue_stats catalog_stats count_queue
stats_add_up fails m now db q c v eq ec =
    let q' = ok-injective (guard-eq-ok (fails run_query) database_failure _ eq).1 in
    let c' = ok-injective (guard-eq-ok (fails run_query) database_failure _ ec).1 in
    (
      subst (λ x. x.unmatched + x.matched + x.suppressed + x.exhausted ≡ c.infohashes) q'
          (statuses-count m now db.releases ∙ ap (λ x. x.infohashes) c'),
      subst (λ x. x.available + x.leased ≡ x.unmatched) q'
          (available-count m now db.releases v.rows),
      omega (arith, ap (λ x. x.refs) c', ap (λ x. x.matched) q', refs-count m db.releases v.rows),
    )
