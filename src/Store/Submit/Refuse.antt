-- ===== src/Store/Submit/Refuse.antt =====
-- The refusals of a submission.
use takuhai.Base.{Bool-cases, Time, inl, inr, none, refl, some, ℕ, ◌≡◌}
use takuhai.Errors.{ok, err, no_such_release, stale_lease}
use takuhai.Store.{Db, Release, healthy, find_release}
use takuhai.Store.Submit.{
  SubmitParams, validate_submit, is_stale, submit_row, submit_tx, settle, submit,
}
use takuhai.Store.Submit.Fence.{Holds, fresh-lem, live-lem}

pub submit-missing :
    (m : ℕ) (now : Time) (p : SubmitParams) (db : Db)
    → validate_submit p ≡ ok tt
    → find_release p.infohash db.releases ≡ none
    → submit healthy m now p db ≡ (db, err no_such_release)
unfolding submit submit_tx submit_row settle
submit-missing m now p db checked gone = rw (checked, gone, submit_row) refl

pub submit-stale :
    (m : ℕ) (now : Time) (p : SubmitParams) (db : Db) (r : Release)
    → validate_submit p ≡ ok tt
    → find_release p.infohash db.releases ≡ some r
    → ¬ Holds p now db
    → submit healthy m now p db ≡ (db, err stale_lease)
unfolding submit submit_tx submit_row settle
submit-stale m now p db r checked found other = elim (Bool-cases (is_stale p now r)) [
  | inl stale ↦ rw (checked, found, submit_row, stale) refl
  | inr fresh ↦
      let (token, live) = fresh-lem p now r fresh in
      let (t, until, before) = live-lem r.lease_expires_at now live in
      absurd (other (r, t, found, token, until, before))
]
