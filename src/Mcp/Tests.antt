-- ===== src/Mcp/Tests.antt =====
-- Runs of the tools.
use takuhai.Base.{
  Bytes, List, Time, [], arith, codes, false, none, refl, some, true, ℕ, ◌+◌, ◌∷◌, ◌≡◌,
}
use takuhai.Dispatch.{resolve_magnets_typed}
use takuhai.Mcp.{
  structured, resolve_magnets_tool, settle_resolve, ref_namespace, answered, get_release_tool,
  completed,
}
use takuhai.Mcp.Misses.{resolve_counts, is_label}
use takuhai.Mcp.Surfaces.{as_response, get_release-surfaces}
use takuhai.Metrics.{Takuhai, total}
use takuhai.Rest.Read.{handle_get_release}
use takuhai.Rest.Ingest.{Env}
use takuhai.Store.{Release, healthy, is_canonical_infohash}
use takuhai.Store.Claim.Tests.{zeros_hash, free_row, one_row}
use takuhai.Store.Invariant.{Inv}
use takuhai.Store.Query.{magnet_entries, resolve_magnets}

abbrev calm_env : Env
calm_env = record { now = 7; fails = healthy }

abbrev no_format : Time → Bytes
no_format t = []

abbrev no_metrics : Takuhai
no_metrics = record {
  ingest_batches = [];
  ingest_posts = [];
  ingest_batch_size = [];
  queue_claims = [];
  queue_claimed_items = 0;
  queue_claim_batch_size = [];
  submits = [];
  submit_confidence = [];
  mcp_tool_calls = [];
  mcp_resolve_infohashes = [];
}

abbrev magnet_row : Release
magnet_row = record free_row { magnet = some (codes "magnet:?a") }

magnet-Inv : Inv 3 (one_row magnet_row)
unfolding is_canonical_infohash
magnet-Inv = record { keys = (tt, tt); rows = (((refl, refl, refl, omega arith), refl), tt) }

abbrev two_hashes : List Bytes
two_hashes = zeros_hash ∷ codes "1111111111111111111111111111111111111111" ∷ []

abbrev one_found : List (Bytes × Bytes)
one_found = (zeros_hash, codes "magnet:?a") ∷ []

finds_one :
    (resolve_magnets_tool healthy two_hashes (one_row magnet_row) no_metrics).1 ≡ answered one_found
unfolding resolve_magnets_tool settle_resolve resolve_magnets_typed resolve_magnets magnet_entries
finds_one = refl

abbrev resolved : List (List Bytes × ℕ)
resolved =
    (resolve_magnets_tool healthy two_hashes (one_row magnet_row)
      no_metrics).0.mcp_resolve_infohashes

resolve_counts_example :
    (total (is_label (codes "hit")) resolved ≡ 1)
    × (total (is_label (codes "hit")) resolved + total (is_label (codes "miss")) resolved ≡ 2)
resolve_counts_example =
    resolve_counts healthy 3 two_hashes (one_row magnet_row) no_metrics one_found magnet-Inv
      finds_one

get_release-surfaces_example :
    handle_get_release no_format calm_env true zeros_hash (one_row magnet_row)
    ≡ as_response (get_release_tool no_format healthy zeros_hash (one_row magnet_row) no_metrics).1
get_release-surfaces_example =
    get_release-surfaces no_format calm_env zeros_hash (one_row magnet_row) no_metrics refl

tags : ref_namespace (codes "tvdb:1:2") ≡ codes "tvdb"
unfolding ref_namespace
tags = refl

bad_output : structured (λ (b : Bytes). some b) (λ _. false) (answered []) ≡ none
unfolding structured completed
bad_output = refl
