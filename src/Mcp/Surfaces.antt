-- ===== src/Mcp/Surfaces.antt =====
-- The MCP tools and the REST endpoints give one answer.
use takuhai.Base.{
  Bytes, Time, [], any_if, codes, false, inl, inr, refl, sym, true, ℕ, ◌==◌, ◌∙◌, ◌∷◌, ◌≡◌,
}
use takuhai.Errors.{Result, ok, err, Result-cases}
use takuhai.Dispatch.{wire_code, get_release_typed, get_release_of}
use takuhai.Infohash.{normalize_infohash}
use takuhai.Infohash.Canonical.{normalize-IsCanonical, normalize_fixed, normalize_empty}
use takuhai.Mcp.{Handled, refused, answered as found, get_release_tool, settle_tool}
use takuhai.Metrics.{Takuhai}
use takuhai.Rest.Ingest.{Env, Response, success, failure}
use takuhai.Rest.Submit.{code_status}
use takuhai.Rest.Read.{answered, path_infohash, release_at, handle_get_release}
use takuhai.Store.{Db}

-- What a tool found, as a REST endpoint answers it.
abbrev pub as_response {ℓ} : {A : Type ℓ} → Handled A → Response A
as_response (refused e) = failure (code_status (wire_code e))
as_response (found a) = success a

settle_tool-answered {ℓ} :
    {A : Type ℓ} (name : Bytes) (r : Result A) (m : Takuhai)
    → as_response (settle_tool name r m).1 ≡ answered r
unfolding settle_tool answered
settle_tool-answered name (err e) m = refl
settle_tool-answered name (ok a) m = refl

-- What both surfaces look up once the text is normalized.
get_release-normalized :
    (format : Time → Bytes) (env : Env) (c : ℕ) (s : Bytes) (db : Db)
    → any_if (λ d. d == b'/') (c ∷ s) ≡ false
    → handle_get_release format env true (c ∷ s) db
      ≡ answered (get_release_typed format env.fails (c ∷ s) db)
unfolding handle_get_release path_infohash release_at get_release_typed get_release_of answered
    code_status wire_code
get_release-normalized format env c s db plain = elim (Result-cases (normalize_infohash (c ∷ s))) [
  | inr (e, q) ↦ rw (plain, q) refl
  | inl (h, q) ↦ rw (plain, q, normalize_fixed h (normalize-IsCanonical (c ∷ s) h q)) refl
]

-- GET /releases/ with a path without a slash answers what the tool get_release gives for that text:
-- the same release, or the status of the error's code.
pub get_release-surfaces :
    (format : Time → Bytes) (env : Env) (raw : Bytes) (db : Db) (m : Takuhai)
    → any_if (λ c. c == b'/') raw ≡ false
    → handle_get_release format env true raw db
      ≡ as_response (get_release_tool format env.fails raw db m).1
unfolding get_release_tool settle_tool handle_get_release path_infohash release_at get_release_typed
    get_release_of code_status wire_code
get_release-surfaces format env [] db m plain = rw normalize_empty refl
get_release-surfaces format env (c ∷ s) db m plain =
    get_release-normalized format env c s db plain
    ∙ sym (
        settle_tool-answered (codes "get_release") (get_release_typed format env.fails (c ∷ s) db)
          m)
