-- ===== src/Rest/Submit/Tests.antt =====
-- Runs of POST /submit.
use takuhai.Base.{ap, arith, refl, some, some-injective, true, ◌≡◌}
use takuhai.Rest.Ingest.{failure}
use takuhai.Rest.Submit.{handle_submit}
use takuhai.Rest.Submit.Codes.{submit_conflict}
use takuhai.Store.{healthy}
use takuhai.Store.Claim.Tests.{leased_row, one_row}
use takuhai.Store.Submit.Tests.{suppression, suppression-valid}
use takuhai.Store.Submit.Fence.{Holds}

old_token : ¬ Holds (suppression 0) 20 (one_row leased_row)
old_token (r, t, found, token, until, before) =
    let e : 1 ≡ r.claim_token = ap (λ x. x.claim_token) (some-injective found) in
    omega (arith, e, token)

submit_conflict_example :
    handle_submit
      (record { now = 20; fails = healthy })
      3
      true
      true
      (some (suppression 0))
      (one_row leased_row)
    ≡ (one_row leased_row, failure 409)
submit_conflict_example =
    submit_conflict 20 3 (suppression 0) (one_row leased_row) leased_row (suppression-valid 0) refl
      old_token
