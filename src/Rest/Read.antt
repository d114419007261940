-- ===== src/Rest/Read.antt =====
-- internal/rest/queue.go, releases.go and magnets.go: the endpoints of the queue and of single
-- releases. A path is what stands behind the prefix of its route.
use takuhai.Base.{
  Bool, Bytes, List, Option, Time, [], any_if, bytes_eq, false, if◌then◌else◌, none, some, true, ℕ,
  ◌==◌, ◌||◌, ◌∷◌,
}
use takuhai.Errors.{Result, ok, err}
use takuhai.Dispatch.{
  wire_code, ClaimItemResult, claim_typed, queue_stats_typed, get_release_typed, GetReleaseResult,
  resolve_magnets_typed,
}
use takuhai.Infohash.{normalize_infohash}
use takuhai.Rest.Ingest.{Env, Response, success, failure}
use takuhai.Rest.Submit.{code_status}
use takuhai.Store.{Db}
use takuhai.Store.Claim.{ClaimParams}
use takuhai.Store.Stats.{QueueStats}

unfoldable pub answered {ℓ} : {A : Type ℓ} → Result A → Response A
answered (ok a) = success a
answered (err e) = failure (code_status (wire_code e))

-- handleClaim, on a method, on whether the body can be read, and on the request if it decodes.
pub handle_claim :
    (Time → Bytes)
    → Env
    → ℕ
    → (Bytes → Bool)
    → Bool
    → Bool
    → Option ClaimParams
    → Db
    → Db × Response (List ClaimItemResult)
handle_claim format env m locked false readable body db = (db, failure 405)
handle_claim format env m locked true false body db = (db, failure 400)
handle_claim format env m locked true true none db = (db, failure 400)
handle_claim format env m locked true true (some req) db =
    let (db', out) = claim_typed format env.fails m env.now locked req db in (db', answered out)

pub handle_queue_stats : Env → ℕ → Bool → Db → Response QueueStats
handle_queue_stats env m false db = failure 405
handle_queue_stats env m true db = answered (queue_stats_typed env.fails m env.now db)

-- raw == "" || strings.Contains(raw, "/"), and then NormalizeInfohash
unfoldable pub path_infohash : Bytes → Option Bytes
path_infohash raw =
    if bytes_eq raw [] || any_if (λ c. c == b'/') raw
    then none
    else elim (normalize_infohash raw) [ ok ih ↦ some ih | err e ↦ none ]

unfoldable pub release_at : (Time → Bytes) → Env → Db → Option Bytes → Response GetReleaseResult
release_at format env db none = failure 400
release_at format env db (some ih) = answered (get_release_typed format env.fails ih db)

unfoldable pub handle_get_release :
    (Time → Bytes) → Env → Bool → Bytes → Db → Response GetReleaseResult
handle_get_release format env false raw db = failure 405
handle_get_release format env true raw db = release_at format env db (path_infohash raw)

-- The value of a key in a map.
unfoldable pub entry_of : Bytes → List (Bytes × Bytes) → Option Bytes
entry_of h [] = none
entry_of h ((k, v) ∷ es) = if bytes_eq k h then some v else entry_of h es

unfoldable pub magnet_answer : Bytes → Option Bytes → Response (Bytes × Bytes)
magnet_answer ih none = failure 404
magnet_answer ih (some magnet) = success (ih, magnet)

unfoldable pub magnet_at : Env → Db → Option Bytes → Response (Bytes × Bytes)
magnet_at env db none = failure 400
magnet_at env db (some ih) = elim (resolve_magnets_typed env.fails (ih ∷ []) db) [
  | err e ↦ failure (code_status (wire_code e))
  | ok magnets ↦ magnet_answer ih (entry_of ih magnets)
]

unfoldable pub handle_get_magnet : Env → Bool → Bytes → Db → Response (Bytes × Bytes)
handle_get_magnet env false raw db = failure 405
handle_get_magnet env true raw db = magnet_at env db (path_infohash raw)
