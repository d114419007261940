-- ===== src/Metrics/Routes.antt =====
-- The path label of a request, metrics.go's route, over a map whose order of iteration is open.
pub mod Order
use takuhai.Stdlib.Mux.{exactly, covers}
use takuhai.Base.{Bytes, List, Option, [], codes, find_if, none, some, ◌∷◌}

-- A map from patterns to labels, in the order in which it is iterated.
abbrev pub RouteMap : Type 0
RouteMap = List (Bytes × Bytes)

abbrev pub other : Bytes
other = codes "other"

unfoldable pub prefix_route : Option (Bytes × Bytes) → Bytes
prefix_route none = other
prefix_route (some (pattern, label)) = label

unfoldable pub exact_route : RouteMap → Bytes → Option (Bytes × Bytes) → Bytes
unfolding prefix_route
exact_route routes path (some (pattern, label)) = label
exact_route routes path none = prefix_route (find_if (covers path) routes)

unfoldable pub route : RouteMap → Bytes → Bytes
unfolding exact_route
route routes path = exact_route routes path (find_if (exactly path) routes)

-- The routes of the service, and those of a crawler.
abbrev pub service_routes : RouteMap
service_routes =
    (codes "/healthz", codes "/healthz")
    ∷ (codes "/ingest", codes "/ingest")
    ∷ (codes "/magnets/", codes "/magnets/{infohash}")
    ∷ (codes "/releases/", codes "/releases/{infohash}")
    ∷ (codes "/mcp", codes "/mcp")
    ∷ (codes "/metrics", codes "/metrics")
    ∷ (codes "/queue/claim", codes "/queue/claim")
    ∷ (codes "/queue/stats", codes "/queue/stats")
    ∷ (codes "/submit", codes "/submit")
    ∷ []

abbrev pub crawler_routes : RouteMap
crawler_routes = (codes "/crawl", codes "/crawl") ∷ (codes "/metrics", codes "/metrics") ∷ []
