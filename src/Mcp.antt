-- ===== src/Mcp.antt =====
-- internal/mcp: the tools of the MCP server, which give the dispatcher's results as structured
-- content, and record each call.
pub mod Surfaces
pub mod Misses
mod Tests
use takuhai.Base.{
  Bool, Bytes, List, Option, Time, [], codes, cut_byte, false, if◌then◌else◌, length, none, some,
  true, ◌-◌,
}
use takuhai.Errors.{Result, Error, ok, err}
use takuhai.Cursor.Token.{Codec}
use takuhai.Dispatch.{
  WireCode, wire_code, GetReleaseResult, get_release_typed, ListReleasesResult, list_releases_typed,
  resolve_magnets_typed,
}
use takuhai.Metrics.{Takuhai, record_tool, record_resolved}
use takuhai.Store.{Db, Faults}
use takuhai.Store.Listing.{ReleaseQuery}

-- A block of content: the JSON of an error with its code, or the JSON of a result.
pub data Content : Type 0 where
  error_body : WireCode → Content
  json_text : Bytes → Content

pub record CallToolResult : Type 0 where
  pub is_error : Bool
  pub content : Content
  pub structured_content : Option Bytes

-- errorResult
pub error_result : Error → CallToolResult
error_result e = record {
  is_error = true;
  content = error_body (wire_code e);
  structured_content = none;
}

-- What the handler of a tool returns: an error result, or its output and no result of its own.
pub data Handled {ℓ} (Out : Type ℓ) : Type ℓ where
  refused : Error → Handled Out
  answered : Out → Handled Out

module _ {ℓ} {Out : Type ℓ} (encode : Out → Option Bytes) (fits : Bytes → Bool) where
  -- The JSON of an output, if it conforms to the schema of the tool.
  pub completed : Bytes → Option CallToolResult
  completed json =
      if fits json
      then some
          (record { is_error = false; content = json_text json; structured_content = some json })
      else none

  -- addStructuredTool: the answer to a call, or none where the output does not fit.
  pub structured : Handled Out → Option CallToolResult
  unfolding completed error_result
  structured (refused e) = some (error_result e)
  structured (answered out) = elim (encode out) [ none ↦ none | some json ↦ completed json ]

abbrev ok_label : Bytes
ok_label = codes "ok"

abbrev error_label : Bytes
error_label = codes "error"

pub settle_tool {ℓ} : {Out : Type ℓ} → Bytes → Result Out → Takuhai → Takuhai × Handled Out
settle_tool name (err e) m = (record_tool name error_label m, refused e)
settle_tool name (ok out) m = (record_tool name ok_label m, answered out)

-- The handler of get_release.
pub get_release_tool :
    (Time → Bytes) → Faults → Bytes → Db → Takuhai → Takuhai × Handled GetReleaseResult
unfolding settle_tool
get_release_tool format fails infohash db m =
    settle_tool (codes "get_release") (get_release_typed format fails infohash db) m

-- The handler of list_releases.
pub list_releases_tool :
    (Time → Bytes)
    → Codec
    → Faults
    → ReleaseQuery
    → Db
    → Takuhai
    → Takuhai × Handled ListReleasesResult
unfolding settle_tool
list_releases_tool format codec fails req db m =
    settle_tool (codes "list_releases") (list_releases_typed format codec fails req db) m

-- The namespace of a ref, as it is logged.
pub ref_namespace : Bytes → Bytes
ref_namespace ref = elim (cut_byte b':' ref) [ none ↦ [] | some (ns, value) ↦ ns ]

-- misses < 0 is set to 0, as ◌-◌ does.
abbrev pub count_resolved : List Bytes → List (Bytes × Bytes) → Takuhai → Takuhai
count_resolved asked magnets m = record_resolved (length magnets) (length asked - length magnets) m

pub settle_resolve :
    List Bytes → Result (List (Bytes × Bytes)) → Takuhai → Takuhai × Handled (List (Bytes × Bytes))
settle_resolve asked (err e) m = (record_tool (codes "resolve_magnets") error_label m, refused e)
settle_resolve asked (ok magnets) m = (
  count_resolved asked magnets (record_tool (codes "resolve_magnets") ok_label m),
  answered magnets,
)

-- The handler of resolve_magnets.
pub resolve_magnets_tool :
    Faults → List Bytes → Db → Takuhai → Takuhai × Handled (List (Bytes × Bytes))
unfolding settle_resolve
resolve_magnets_tool fails hashes db m =
    settle_resolve hashes (resolve_magnets_typed fails hashes db) m
