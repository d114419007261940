-- ===== src/Rest/Submit.antt =====
-- internal/rest/submit.go and the status codes of internal/rest/handler.go: POST /submit.
pub mod Codes
mod Tests
use takuhai.Base.{Bool, Option, false, none, some, true, ℕ}
use takuhai.Errors.{Result, ok, err, Error}
use takuhai.Dispatch.{
  WireCode, no_such_release_code, no_active_lease_code, stale_lease_code, invalid_ref_code,
  invalid_input_code, wire_code, submit_typed,
}
use takuhai.Rest.Ingest.{Env, Response, success, failure}
use takuhai.Store.{Db}
use takuhai.Store.Submit.{SubmitParams}

-- writeDispatchError: the status of a wire code.
unfoldable pub code_status : WireCode → ℕ
code_status no_such_release_code = 404
code_status no_active_lease_code = 409
code_status stale_lease_code = 409
code_status invalid_ref_code = 400
code_status invalid_input_code = 400
code_status _ = 500

pub respond : Db × Result (Unit {0}) → Db × Response (Unit {0})
respond (db, ok u) = (db, success u)
respond (db, err e) = (db, failure (code_status (wire_code e)))

-- handleSubmit, on a method, on whether the body can be read, and on the request if it decodes.
pub handle_submit : Env → ℕ → Bool → Bool → Option SubmitParams → Db → Db × Response (Unit {0})
handle_submit env m false readable body db = (db, failure 405)
handle_submit env m true false body db = (db, failure 400)
handle_submit env m true true none db = (db, failure 400)
handle_submit env m true true (some req) db = respond (submit_typed env.fails m env.now req db)
