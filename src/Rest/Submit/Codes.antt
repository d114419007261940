-- ===== src/Rest/Submit/Codes.antt =====
-- What the status of POST /submit says of the tables.
use takuhai.Base.{Time, ap, none, refl, some, true, ℕ, ◌≡◌}
use takuhai.Errors.{Result, ok, err, stale_lease, no_such_release, invalid_status}
use takuhai.Dispatch.{submit_typed, is_known, wire_code}
use takuhai.Rest.Ingest.{failure}
use takuhai.Rest.Submit.{code_status, respond, handle_submit}
use takuhai.Store.{Db, Release, healthy, find_release}
use takuhai.Store.Submit.{SubmitStatus, SubmitParams, validate_submit, submit}
use takuhai.Store.Submit.Fence.{Holds}
use takuhai.Store.Submit.Refuse.{submit-missing, submit-stale}

-- A handler's status is the status of what the store says of a request that is valid.
handled :
    (now : Time) (m : ℕ) (req : SubmitParams) (db db' : Db) (r : Result (Unit {0}))
    → is_known req.status ≡ true
    → submit healthy m now req db ≡ (db', r)
    → handle_submit (record { now = now; fails = healthy }) m true true (some req) db
      ≡ respond (db', r)
unfolding handle_submit submit_typed
handled now m req db db' r known e = rw known (ap respond e)

valid-known :
    (req : SubmitParams) (s : SubmitStatus)
    → req.status ≡ s
    → validate_submit req ≡ ok tt
    → is_known s ≡ true
unfolding is_known validate_submit
valid-known req SubmitStatus.matched same e = refl
valid-known req SubmitStatus.unmatched same e = refl
valid-known req SubmitStatus.suppressed same e = refl
valid-known req SubmitStatus.unknown same e =
    let e' : ◌≡◌ {A = Result (Unit {0})} (err invalid_status) (ok tt) = rw same at e in cc e'

-- While the database works, a well-formed POST /submit for a release that exists is answered with
-- 409 when the token is not the current one of a live lease, and changes nothing.
pub submit_conflict :
    (now : Time) (m : ℕ) (req : SubmitParams) (db : Db) (r : Release)
    → validate_submit req ≡ ok tt
    → find_release req.infohash db.releases ≡ some r
    → ¬ Holds req now db
    → handle_submit (record { now = now; fails = healthy }) m true true (some req) db
      ≡ (db, failure 409)
unfolding respond code_status wire_code
submit_conflict now m req db r checked found other =
    handled now m req db db (err stale_lease) (valid-known req req.status refl checked)
      (submit-stale m now req db r checked found other)

-- While the database works, a well-formed POST /submit for a release that does not exist is answered
-- with 404, and changes nothing.
submit_not_found :
    (now : Time) (m : ℕ) (req : SubmitParams) (db : Db)
    → validate_submit req ≡ ok tt
    → find_release req.infohash db.releases ≡ none
    → handle_submit (record { now = now; fails = healthy }) m true true (some req) db
      ≡ (db, failure 404)
unfolding respond code_status wire_code
submit_not_found now m req db checked gone =
    handled now m req db db (err no_such_release) (valid-known req req.status refl checked)
      (submit-missing m now req db checked gone)
