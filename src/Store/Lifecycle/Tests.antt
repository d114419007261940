-- ===== src/Store/Lifecycle/Tests.antt =====
-- Moves of the queue of entries on tables of one release.
use takuhai.Base.{All, [], ap, arith, inl, refl, some, subst, ◌∷◌, ◌≡◌, ◌≢◌}
use takuhai.Errors.{Error, err}
use takuhai.Store.{Db, healthy, is_canonical_infohash}
use takuhai.Store.Invariant.{Inv}
use takuhai.Store.Ingest.{ingest_n}
use takuhai.Store.Ingest.Tests.{one_post}
use takuhai.Store.Claim.{lease_end, ClaimedRelease, claim}
use takuhai.Store.Claim.Tests.{
  leased-claim, before_end, free-claim, claimed_row, zeros_hash, leased_row, one_row, free_row,
  free-Inv, one_claim, unlocked,
}
use takuhai.Store.Submit.{submit}
use takuhai.Store.Submit.Tests.{
  suppression-run, suppression, suppressed_row, suppressed_db, leased-Inv,
}
use takuhai.Store.Reach.{ingested, claimed}
use takuhai.Store.Lifecycle.{entry, entry_of, Moves}
use takuhai.Store.Lifecycle.Leases.{
  StepsBefore, none_before, one_before, claim_exclusive, submit_once,
}
use takuhai.Store.Lifecycle.Runs.{
  Steps, Step-Moves, no_step, one_more, settled_stays, superseded_forever,
}

Step-Moves_example :
    Moves 3 10
      (entry zeros_hash (one_row free_row))
      (entry zeros_hash (claim healthy 3 10 unlocked one_claim (one_row free_row)).0)
Step-Moves_example =
    Step-Moves 3 (omega arith) 10 (one_row free_row)
      (claim healthy 3 10 unlocked one_claim (one_row free_row)).0 zeros_hash free-Inv
      (claimed healthy unlocked one_claim (one_row free_row))

suppressed-Inv : Inv 3 suppressed_db
unfolding is_canonical_infohash
suppressed-Inv = record {
  keys = (tt, tt);
  rows = (((refl, refl, refl, refl, refl, omega arith), refl), tt);
}

-- A claim and an ingest of the same release after its suppression.
abbrev claimed_again : Db
claimed_again = (claim healthy 3 30 unlocked one_claim suppressed_db).0

abbrev seen_again : Db
seen_again = (ingest_n healthy 40 one_post claimed_again).0

later : Steps 3 suppressed_db seen_again
later =
    one_more 30 suppressed_db claimed_again seen_again
      (claimed healthy unlocked one_claim suppressed_db)
      (one_more 40 claimed_again seen_again seen_again (ingested healthy one_post claimed_again)
        (no_step seen_again))

settled_stays_example : entry zeros_hash seen_again ≡ some (entry_of suppressed_row)
settled_stays_example =
    settled_stays 3 (omega arith) suppressed_db seen_again zeros_hash (entry_of suppressed_row)
      suppressed-Inv later refl (λ e. cc e)

superseded_forever_example :
    (x : Error) × (submit healthy 3 50
        (suppression 0)
        (ingest_n healthy 40 one_post (one_row leased_row)).0
      ≡ ((ingest_n healthy 40 one_post (one_row leased_row)).0, err x))
superseded_forever_example =
    superseded_forever 3 (omega arith) healthy 50 (suppression 0) (one_row leased_row)
      (ingest_n healthy 40 one_post (one_row leased_row)).0 (entry_of leased_row) leased-Inv
      (one_more 40 (one_row leased_row) (ingest_n healthy 40 one_post (one_row leased_row)).0
        (ingest_n healthy 40 one_post (one_row leased_row)).0
        (ingested healthy one_post (one_row leased_row))
        (no_step (ingest_n healthy 40 one_post (one_row leased_row)).0))
      refl (omega arith)

-- Another claim while the lease lives.
claimed-Before : StepsBefore 3 (lease_end 10 60) (one_row leased_row) (one_row leased_row)
claimed-Before =
    let after = (claim healthy 3 11 unlocked one_claim (one_row leased_row)).0 in
    subst (StepsBefore 3 (lease_end 10 60) (one_row leased_row)) (ap (λ x. x.0) leased-claim) (
      one_before 11 (one_row leased_row) after after before_end
        (claimed healthy unlocked one_claim (one_row leased_row)) (none_before after))

claim_exclusive_example :
    All
      (λ (i : ClaimedRelease). All (λ (j : ClaimedRelease). i.infohash ≢ j.infohash) [])
      (claimed_row ∷ [])
claim_exclusive_example =
    claim_exclusive healthy healthy 3 10 11 unlocked unlocked one_claim one_claim (one_row free_row)
      (one_row leased_row) (one_row leased_row) (one_row leased_row) (claimed_row ∷ []) []
      (omega arith) free-Inv free-claim claimed-Before before_end leased-claim

submit_once_example :
    (x : Error) × (submit healthy 3 50 (suppression 1) seen_again ≡ (seen_again, err x))
submit_once_example =
    submit_once healthy healthy 3 20 50 (suppression 1) (suppression 1) (one_row leased_row)
      suppressed_db seen_again leased_row (omega arith) leased-Inv suppression-run refl
      (inl λ e. cc e) later refl
