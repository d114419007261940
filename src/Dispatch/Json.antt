-- ===== src/Dispatch/Json.antt =====
-- internal/dispatch/dispatch.go: the entry points that take and give JSON, around the typed
-- operations.
use takuhai.Base.{Bool, Bytes, List, Option, Time, codes, none, some, ℕ}
use takuhai.Errors.{Error, Result, ok, err}
use takuhai.Cursor.Token.{Codec}
use takuhai.Dispatch.{
  ClaimItemResult, GetReleaseResult, ListReleasesResult, claim_typed, get_release_typed,
  list_releases_typed, queue_stats_typed, resolve_magnets_typed, submit_typed,
}
use takuhai.Store.{Db, Faults}
use takuhai.Store.Claim.{ClaimParams}
use takuhai.Store.Listing.{ReleaseQuery}
use takuhai.Store.Stats.{QueueStats}
use takuhai.Store.Submit.{SubmitParams}

-- The output of an entry point: an input or a result that JSON does not take, an error of the
-- operation, or the JSON of its result.
pub data Output : Type 0 where
  bad_input : Output
  bad_result : Output
  refused : Error → Output
  json : Bytes → Output

-- json.Marshal of a result.
unfoldable pub marshalled {ℓ} : {A : Type ℓ} → (A → Option Bytes) → Result A → Output
marshalled marshal (err e) = refused e
marshalled marshal (ok a) = elim (marshal a) [ none ↦ bad_result | some text ↦ json text ]

-- An operation that reads the tables, behind json.Unmarshal.
unfoldable pub reading {ℓ κ} :
    {Req : Type κ} {A : Type ℓ} → (Req → Result A) → (A → Option Bytes) → Option Req → Output
unfolding marshalled
reading op marshal none = bad_input
reading op marshal (some req) = marshalled marshal (op req)

-- An operation that changes the tables: an input that does not decode leaves them, and a result
-- that cannot be encoded comes after the change.
unfoldable pub changing {ℓ κ} :
    {Req : Type κ} {A : Type ℓ}
    → (Req → Db → Db × Result A)
    → (A → Option Bytes)
    → Option Req
    → Db
    → Db × Output
unfolding marshalled
changing op marshal none db = (db, bad_input)
changing op marshal (some req) db = let (db', out) = op req db in (db', marshalled marshal out)

-- The bytes that Submit answers with.
abbrev pub submitted : Bytes
submitted = codes "{\"ok\":true}"

-- What package json makes of the requests and results.
pub record Json : Type 0 where
  pub claim_request : Bytes → Option ClaimParams
  pub claim_result : List ClaimItemResult → Option Bytes
  pub submit_request : Bytes → Option SubmitParams
  pub queue_stats_result : QueueStats → Option Bytes
  pub list_releases_request : Bytes → Option ReleaseQuery
  pub list_releases_result : ListReleasesResult → Option Bytes
  pub get_release_request : Bytes → Option Bytes
  pub get_release_result : GetReleaseResult → Option Bytes
  pub resolve_magnets_request : Bytes → Option (List Bytes)
  pub resolve_magnets_result : List (Bytes × Bytes) → Option Bytes

module _ (j : Json) (format_time : Time → Bytes) where
  -- Dispatcher.Claim
  unfoldable pub claim_json : Faults → ℕ → Time → (Bytes → Bool) → Bytes → Db → Db × Output
  unfolding changing
  claim_json fails m now locked input =
      changing (claim_typed format_time fails m now locked) j.claim_result (j.claim_request input)

  -- Dispatcher.ListReleases
  unfoldable pub list_releases_json : Codec → Faults → Bytes → Db → Output
  unfolding reading
  list_releases_json codec fails input db =
      reading (λ req. list_releases_typed format_time codec fails req db) j.list_releases_result
        (j.list_releases_request input)

  -- Dispatcher.GetRelease
  unfoldable pub get_release_json : Faults → Bytes → Db → Output
  unfolding reading
  get_release_json fails input db =
      reading (λ text. get_release_typed format_time fails text db) j.get_release_result
        (j.get_release_request input)

-- Dispatcher.Submit
unfoldable pub submit_json : Json → Faults → ℕ → Time → Bytes → Db → Db × Output
unfolding changing
submit_json j fails m now input =
    changing (submit_typed fails m now) (λ done. some submitted) (j.submit_request input)

-- Dispatcher.QueueStats, which takes no notice of its input.
unfoldable pub queue_stats_json : Json → Faults → ℕ → Time → Bytes → Db → Output
unfolding marshalled
queue_stats_json j fails m now input db =
    marshalled j.queue_stats_result (queue_stats_typed fails m now db)

-- Dispatcher.ResolveMagnets
unfoldable pub resolve_magnets_json : Json → Faults → Bytes → Db → Output
unfolding reading
resolve_magnets_json j fails input db =
    reading (λ hashes. resolve_magnets_typed fails hashes db) j.resolve_magnets_result
      (j.resolve_magnets_request input)
