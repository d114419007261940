-- ===== src/Store/Tests.antt =====
-- Runs of the store.
use takuhai.Base.{[], arith, refl, some, ◌+◌, ◌∷◌, ◌≡◌, ◌≤◌}
use takuhai.Errors.{ok}
use takuhai.Store.{healthy}
use takuhai.Store.Invariant.{Inv}
use takuhai.Store.Ingest.{ingest_n}
use takuhai.Store.Reach.{empty_db, Reachable-Inv, ingested, initially, then_step}
use takuhai.Store.Stats.{
  QueueStats, CatalogStats, count_queue, is_leased, queue_stats, catalog_stats, counts_ref,
  same_ref, count_refs,
}
use takuhai.Store.Stats.Counts.{stats_add_up}
use takuhai.Store.Query.{magnet_entries, resolve_magnets}
use takuhai.Store.Query.Lookup.{lookup, magnet_of, resolve_magnets_lem}
use takuhai.Store.Claim.Tests.{zeros_hash, free_row, one_row, free-Inv}
use takuhai.Store.Claim.{is_claimable}
use takuhai.Store.Ingest.Tests.{one_post}

Reachable-Inv_example : Inv 3 (ingest_n healthy 7 one_post empty_db).0
Reachable-Inv_example = Reachable-Inv 3 (omega arith) (ingest_n healthy 7 one_post empty_db).0 (
    then_step 7 empty_db (ingest_n healthy 7 one_post empty_db).0 initially
      (ingested healthy one_post empty_db))

abbrev free_queue : QueueStats
free_queue = record {
  available = 1;
  leased = 0;
  unmatched = 1;
  matched = 0;
  suppressed = 0;
  exhausted = 0;
}

free-queue_stats : queue_stats healthy 3 8 (one_row free_row) ≡ ok free_queue
unfolding queue_stats count_queue is_leased is_claimable
free-queue_stats = refl

abbrev free_catalog : CatalogStats
free_catalog = record { raw_posts = 0; infohashes = 1; refs = 0 }

free-catalog_stats : catalog_stats healthy (one_row free_row) ≡ ok free_catalog
unfolding catalog_stats counts_ref count_refs same_ref
free-catalog_stats = refl

stats_add_up_example :
    (free_queue.unmatched + free_queue.matched + free_queue.suppressed + free_queue.exhausted
      ≡ free_catalog.infohashes)
    × (free_queue.available + free_queue.leased ≡ free_queue.unmatched)
    × (free_catalog.refs ≤ free_queue.matched)
stats_add_up_example =
    stats_add_up healthy 3 8 (one_row free_row) free_queue free_catalog free-Inv free-queue_stats
      free-catalog_stats

no_magnets : resolve_magnets healthy (zeros_hash ∷ []) (one_row free_row) ≡ ok []
unfolding resolve_magnets magnet_entries
no_magnets = refl

resolve_magnets_lem_example : lookup zeros_hash [] ≡ magnet_of (some free_row)
resolve_magnets_lem_example =
    resolve_magnets_lem healthy 3 (zeros_hash ∷ []) (one_row free_row) [] zeros_hash free-Inv
      no_magnets
