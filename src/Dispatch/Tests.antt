-- ===== src/Dispatch/Tests.antt =====
-- Runs of the JSON entry points.
use takuhai.Base.{Bytes, Option, [], codes, none, refl, some, ◌∷◌, ◌≡◌}
use takuhai.Errors.{invalid_input}
use takuhai.Dispatch.{is_known, submit_typed}
use takuhai.Dispatch.Json.{Json, bad_input, refused, changing, marshalled, submit_json}
use takuhai.Store.{healthy}
use takuhai.Store.Ingest.Tests.{no_rows}
use takuhai.Store.Submit.{SubmitParams, SubmitStatus}

-- Every request but the empty text is a submission with an unknown status.
abbrev lost_submission : SubmitParams
lost_submission = record {
  infohash = codes "0";
  claim_token = 1;
  status = SubmitStatus.unknown;
  ref = [];
  confidence = none;
  reason = [];
}

abbrev requests : Bytes → Option SubmitParams
requests [] = none
requests (c ∷ text) = some lost_submission

abbrev plain : Json
plain = record {
  claim_request = λ input. none;
  claim_result = λ items. none;
  submit_request = requests;
  queue_stats_result = λ counts. none;
  list_releases_request = λ input. none;
  list_releases_result = λ page. none;
  get_release_request = λ input. some input;
  get_release_result = λ d. some d.title;
  resolve_magnets_request = λ input. none;
  resolve_magnets_result = λ magnets. none;
}

submit_json-unreadable : submit_json plain healthy 3 7 [] no_rows ≡ (no_rows, bad_input)
unfolding submit_json changing
submit_json-unreadable = refl

submit_json-lost :
    submit_json plain healthy 3 7 (codes "{}") no_rows ≡ (no_rows, refused invalid_input)
unfolding submit_json changing marshalled submit_typed is_known
submit_json-lost = refl
