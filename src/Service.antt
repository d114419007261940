-- ===== src/Service.antt =====
-- cmd/takuhai/main.go: the wiring of the service, from its configuration to its listener.
pub mod Labels
mod Tests
pub mod Run
use takuhai.Base.{Bool, Bytes, List, Option, [], codes, if◌then◌else◌, none, some, ℕ, ◌∷◌}
use takuhai.Stdlib.Mux.{mux}

-- What answers a request in the end.
pub data Endpoint : Type 0 where
  mcp_tools health_check scrape ingest magnets releases queue_claim queue_stats submit : Endpoint

-- internal/rest/handler.go, NewWithMetricsAndLogger
abbrev pub rest_patterns : List (Bytes × Endpoint)
rest_patterns =
    (codes "/ingest", ingest)
    ∷ (codes "/magnets/", magnets)
    ∷ (codes "/releases/", releases)
    ∷ (codes "/queue/claim", queue_claim)
    ∷ (codes "/queue/stats", queue_stats)
    ∷ (codes "/submit", submit)
    ∷ []

-- internal/mcp/mcp.go, Handler
abbrev pub mcp_patterns : List (Bytes × Endpoint)
mcp_patterns = (codes "/mcp", mcp_tools) ∷ (codes "/healthz", health_check) ∷ []

pub data Part : Type 0 where
  mcp_server healthz metrics rest_api : Part

-- runHTTP
abbrev pub service_patterns : List (Bytes × Part)
service_patterns =
    (codes "/mcp", mcp_server)
    ∷ (codes "/healthz", healthz)
    ∷ (codes "/metrics", metrics)
    ∷ (codes "/ingest", rest_api)
    ∷ (codes "/magnets/", rest_api)
    ∷ (codes "/releases/", rest_api)
    ∷ (codes "/queue/", rest_api)
    ∷ (codes "/submit", rest_api)
    ∷ []

pub serve_part : Bytes → Part → Option Endpoint
serve_part path mcp_server = mux mcp_patterns path
serve_part path healthz = some health_check
serve_part path metrics = some scrape
serve_part path rest_api = mux rest_patterns path

pub served_by : Bytes → Option Part → Option Endpoint
unfolding serve_part
served_by path none = none
served_by path (some part) = serve_part path part

-- The endpoint that a path comes to, through the mux of the service and that of its part.
pub served : Bytes → Option Endpoint
unfolding served_by
served path = served_by path (mux service_patterns path)

-- internal/health/health.go, ServeHTTP: the status, on whether the store answers a ping.
pub health_status : Bool → ℕ
health_status answers = if answers then 200 else 503
