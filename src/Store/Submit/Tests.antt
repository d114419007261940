-- ===== src/Store/Submit/Tests.antt =====
-- Runs of submissions for a leased release.
use takuhai.Base.{[], arith, codes, none, refl, ℕ, ◌∷◌, ◌≡◌}
use takuhai.Errors.{Error, ok, err}
use takuhai.Store.{Db, Release, MatchStatus, MatchEvent, healthy, is_canonical_infohash}
use takuhai.Store.Invariant.{Inv}
use takuhai.Store.Claim.Tests.{
  zeros_hash, free_row, leased_row, one_row, one_claim, claimed_row, unlocked, free-Inv, free-claim,
}
use takuhai.Store.Submit.{
  SubmitStatus, SubmitParams, validate_submit, is_live, is_stale, new_attempts, final_status,
  nullable_ref, nullable_confidence, resolve, event_for, apply_submit, submit_row, submit_tx,
  settle, submit,
}
use takuhai.Store.Submit.Outcome.{Written, submit-accepts}
use takuhai.Store.Submit.Fence.{Holds, submit-Holds, claim-submit, claim_supersedes}

abbrev pub suppression : ℕ → SubmitParams
suppression token = record {
  infohash = zeros_hash;
  claim_token = token;
  status = SubmitStatus.suppressed;
  ref = [];
  confidence = none;
  reason = codes "no";
}

abbrev pub suppressed_row : Release
suppressed_row = record leased_row {
  match_status = MatchStatus.suppressed;
  claimed_at = none;
  lease_expires_at = none;
  updated_at = 20;
}

abbrev suppression_event : MatchEvent
suppression_event = record {
  id = 1;
  infohash = zeros_hash;
  status = MatchStatus.suppressed;
  ref = none;
  confidence = none;
  reason = codes "no";
  created_at = 20;
}

abbrev pub suppressed_db : Db
suppressed_db = record (one_row suppressed_row) {
  match_events = suppression_event ∷ [];
  next_event = 2;
}

pub suppression-valid : (token : ℕ) → validate_submit (suppression token) ≡ ok tt
unfolding validate_submit
suppression-valid token = refl

pub suppression-run :
    submit healthy 3 20 (suppression 1) (one_row leased_row) ≡ (suppressed_db, ok tt)
unfolding submit submit_tx submit_row is_stale is_live new_attempts final_status resolve event_for
    apply_submit nullable_ref nullable_confidence settle validate_submit
suppression-run = refl

pub leased-Inv : Inv 3 (one_row leased_row)
unfolding is_canonical_infohash
leased-Inv = record { keys = (tt, tt); rows = (((refl, refl, refl, omega arith), refl), tt) }

pub leased-Holds : Holds (suppression 1) 20 (one_row leased_row)
leased-Holds = (leased_row, 60_000_000_010, refl, refl, refl, omega arith)

submit-Holds_example : Holds (suppression 1) 20 (one_row leased_row)
submit-Holds_example =
    submit-Holds healthy 3 20 (suppression 1) (one_row leased_row) suppressed_db suppression-run

submit-accepts_example :
    (r r' : Release) × (e : MatchEvent) × (db' : Db) × (submit healthy 3 20
        (suppression 1)
        (one_row leased_row)
      ≡ (db', ok tt))
    × Written 3 20 (suppression 1) (one_row leased_row) db' r r' e
submit-accepts_example =
    submit-accepts 3 20 (suppression 1) (one_row leased_row) leased-Inv (suppression-valid 1)
      leased-Holds

claim-submit_example :
    (db'' : Db) × (submit healthy 3 20 (suppression 1) (one_row leased_row) ≡ (db'', ok tt))
claim-submit_example =
    claim-submit healthy 3 10 20 unlocked one_claim (suppression 1) (one_row free_row)
      (one_row leased_row) (claimed_row ∷ []) 0 claimed_row free-Inv free-claim refl refl refl
      (suppression-valid 1) (omega arith)

claim_supersedes_example :
    (x : Error) × (submit healthy 3 20 (suppression 0) (one_row leased_row)
      ≡ (one_row leased_row, err x))
claim_supersedes_example =
    claim_supersedes healthy healthy 3 10 20 unlocked one_claim (suppression 0) (one_row free_row)
      (one_row leased_row) (claimed_row ∷ []) 0 claimed_row free-Inv free-claim refl refl
      λ e. omega (arith, e)
