-- ===== src/Service/Labels.antt =====
-- The path label of a request is that of the endpoint that answers it.
use takuhai.Base.{
  All, Bool, Bool-cases, Bytes, List, Option, [], arith, bytes_eq, bytes_eq→≡, codes, false,
  has_prefix, if◌then◌else◌, inl, inr, none, refl, some, subst, true, ◌&&◌, ◌||◌, ◌∙◌, ◌∷◌, ◌≡◌,
  ◌⊎◌,
}
use takuhai.Metrics.Routes.Order.{SameEntries, route_order}
use takuhai.Metrics.Routes.{RouteMap, route, service_routes, other, exact_route, prefix_route}
use takuhai.Service.{
  Endpoint, mcp_tools, health_check, scrape, ingest, magnets, releases, queue_claim, queue_stats,
  submit, service_patterns, rest_patterns, rest_api, served, served_by, serve_part,
}
use Prim.Native.String.{String}
use takuhai.Stdlib.Mux.{mux, longest, handler_of}

abbrev pub endpoint_label : Option Endpoint → Bytes
endpoint_label none = other
endpoint_label (some mcp_tools) = codes "/mcp"
endpoint_label (some health_check) = codes "/healthz"
endpoint_label (some scrape) = codes "/metrics"
endpoint_label (some ingest) = codes "/ingest"
endpoint_label (some magnets) = codes "/magnets/{infohash}"
endpoint_label (some releases) = codes "/releases/{infohash}"
endpoint_label (some queue_claim) = codes "/queue/claim"
endpoint_label (some queue_stats) = codes "/queue/stats"
endpoint_label (some submit) = codes "/submit"

abbrev Labelled : Bytes → Type 0
Labelled path = route service_routes path ≡ endpoint_label (served path)

abbrev known_paths : List Bytes
known_paths =
    codes "/healthz"
    ∷ codes "/ingest"
    ∷ codes "/magnets/"
    ∷ codes "/releases/"
    ∷ codes "/mcp"
    ∷ codes "/metrics"
    ∷ codes "/queue/claim"
    ∷ codes "/queue/stats"
    ∷ codes "/submit"
    ∷ codes "/queue/"
    ∷ []

-- A path is one of the given ones, or differs from all of them.
known_or_not :
    (P : Bytes → Type 0) (known : List Bytes) (path : Bytes)
    → All P known
    → P path ⊎ All (λ k. bytes_eq k path ≡ false) known
known_or_not P [] path h = inr tt
known_or_not P (k ∷ known) path h = elim (Bool-cases (bytes_eq k path)) [
  | inl hit ↦ inl (subst P (bytes_eq→≡ k path hit) h.0)
  | inr miss ↦ elim (known_or_not P known path h.1) [
    | inl found ↦ inl found
    | inr rest ↦ inr (miss, rest)
  ]
]

known_paths-Labelled : All Labelled known_paths
unfolding route exact_route prefix_route served served_by serve_part mux
known_paths-Labelled =
    (refl, (refl, (refl, (refl, (refl, (refl, (refl, (refl, (refl, (refl, tt))))))))))

-- A path does not begin in both ways.
one_prefix :
    (path : Bytes)
    → has_prefix (codes "/magnets/") path && has_prefix (codes "/releases/") path ≡ false
one_prefix [] = refl
one_prefix (c ∷ []) = ground arith
one_prefix (c ∷ d ∷ path) = ground arith

abbrev begins : String → Bytes → Bool
begins pattern path = has_prefix (codes pattern) path

-- The last clause stands for the cases that the others leave.
service_flags :
    (path : Bytes) (m r q : Bool)
    → begins "/magnets/" path ≡ m
    → begins "/releases/" path ≡ r
    → begins "/queue/" path ≡ q
    → handler_of (longest path none service_patterns)
      ≡ (if m || (r || q) then some rest_api else none)
service_flags path true true true em er eq = rw (em, er, eq) refl
service_flags path true false true em er eq = rw (em, er, eq) refl
service_flags path false true true em er eq = rw (em, er, eq) refl
service_flags path false false true em er eq = rw (em, er, eq) refl
service_flags path m r q em er eq = rw (em, er, eq) refl

-- Paths that are no pattern are told apart by the patterns with a slash.
module _ (path : Bytes) (fresh : All (λ k. bytes_eq k path ≡ false) known_paths) where
  route_unknown : route service_routes path ≡ (
      if begins "/magnets/" path
      then codes "/magnets/{infohash}"
      else if begins "/releases/" path
      then codes "/releases/{infohash}"
      else other)
  unfolding route exact_route prefix_route
  route_unknown =
      let (n0, (n1, (n2, (n3, (n4, (n5, (n6, (n7, (n8, _))))))))) = fresh in
      rw (n0, n1, n2, n3, n4, n5, n6, n7, n8) (ground arith)

  service_unknown : mux service_patterns path ≡ (
      if begins "/magnets/" path || (begins "/releases/" path || begins "/queue/" path)
      then some rest_api
      else none)
  unfolding mux
  service_unknown =
      let (n0, (n1, (n2, (n3, (n4, (n5, (n6, (n7, (n8, (n9, _)))))))))) = fresh in
      rw (n0, n1, n2, n3, n4, n5, n8, n9) (service_flags path _ _ _ refl refl refl)

  rest_unknown : mux rest_patterns path ≡ (
      if begins "/magnets/" path
      then some magnets
      else if begins "/releases/" path
      then some releases
      else none)
  unfolding mux
  rest_unknown =
      let (n0, (n1, (n2, (n3, (n4, (n5, (n6, (n7, (n8, _))))))))) = fresh in
      rw (n1, n2, n3, n6, n7, n8) (ground (arith, one_prefix path))

  unknown-Labelled : Labelled path
  unfolding served served_by serve_part
  unknown-Labelled = rw (route_unknown, service_unknown) (ground (arith, rest_unknown))

label_known : (path : Bytes) → Labelled path
label_known path = elim (known_or_not Labelled known_paths path known_paths-Labelled) [
  | inl found ↦ found
  | inr fresh ↦ unknown-Labelled path fresh
]

-- In whatever order the map of the routes is iterated, the path label that is recorded for a request
-- is that of the endpoint that answers it, and other where none does, for every path in clean form.
pub label_served :
    (routes : RouteMap) (path : Bytes)
    → SameEntries service_routes routes
    → route routes path ≡ endpoint_label (served path)
label_served routes path same = route_order service_routes routes path refl same ∙ label_known path
