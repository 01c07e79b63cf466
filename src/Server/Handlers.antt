-- ===== src/Server/Handlers.antt =====
-- pkg/server/handlers.go. A response is its status and headers; bodies are the values that are
-- encoded. The matching of the router and the files of the dashboard are left out.
pub mod Origins
pub mod Health
use tinyobs.Base.{
  ℕ, ◌-◌, ◌++◌, not, Bool, true, false, List, [], ◌∷◌, Option, none, some, Bytes, Dict, codes,
  str_eq, insert, any, if◌then◌else◌,
}
use tinyobs.Metric.{Time}
use tinyobs.Server.Monitor.{
  CompactionMonitor, CompactionStatus, StorageMonitor, is_healthy, status, get_usage,
}

pub record HealthResponse : Type 0 where
  pub status : Bytes
  pub version : Bytes
  pub uptime : ℕ
  pub compaction : CompactionStatus

-- The status of the answer, and its body. `checked` and `now` are the times at which `IsHealthy` and
-- `Status` read the clock.
unfoldable pub handle_health : Time → Time → Time → CompactionMonitor → ℕ × HealthResponse
handle_health start_time checked now cm =
    let healthy = is_healthy checked cm in
    (
      if healthy then 200 else 503,
      record {
        status = if healthy then codes "healthy" else codes "degraded";
        version = codes "1.0.0";
        uptime = now - start_time;
        compaction = status now cm;
      },
    )

pub record StorageUsage : Type 0 where
  pub used_bytes : ℕ
  pub max_bytes : ℕ

-- `none` is an answer with status 500.
unfoldable pub handle_storage_usage :
    Time → Option ℕ → StorageMonitor → StorageMonitor × Option StorageUsage
handle_storage_usage now dir_size sm = (
  (get_usage now dir_size sm).0,
  elim (get_usage now dir_size sm).1 [
    | none ↦ none
    | some used ↦ some (record { used_bytes = used; max_bytes = sm.max_bytes })
  ],
)

-- The handlers that the routes name.
pub data Endpoint : Type 0 where
  prometheus_query prometheus_query_range ingest query range_query : Endpoint
  query_execute query_instant metrics_list stats cardinality storage health : Endpoint
  web_socket export_metrics import_metrics dashboard : Endpoint

pub record Route : Type 0 where
  pub path : Bytes
  pub endpoint : Endpoint
  pub methods : List Bytes

abbrev pub get : Bytes
get = codes "GET"

abbrev pub post : Bytes
post = codes "POST"

-- `SetupRoutes`, without the files under /web/.
abbrev pub routes : List Route
routes =
    record { path = codes "/api/v1/query"; endpoint = prometheus_query; methods = get ∷ post ∷ [] }
    ∷ record {
      path = codes "/api/v1/query_range";
      endpoint = prometheus_query_range;
      methods = get ∷ post ∷ [];
    }
    ∷ record { path = codes "/v1/ingest"; endpoint = ingest; methods = post ∷ [] }
    ∷ record { path = codes "/v1/query"; endpoint = query; methods = get ∷ [] }
    ∷ record { path = codes "/v1/query/range"; endpoint = range_query; methods = get ∷ [] }
    ∷ record { path = codes "/v1/query/execute"; endpoint = query_execute; methods = post ∷ [] }
    ∷ record {
      path = codes "/v1/query/instant";
      endpoint = query_instant;
      methods = get ∷ post ∷ [];
    }
    ∷ record { path = codes "/v1/metrics/list"; endpoint = metrics_list; methods = get ∷ [] }
    ∷ record { path = codes "/v1/stats"; endpoint = stats; methods = get ∷ [] }
    ∷ record { path = codes "/v1/cardinality"; endpoint = cardinality; methods = get ∷ [] }
    ∷ record { path = codes "/v1/storage"; endpoint = storage; methods = get ∷ [] }
    ∷ record { path = codes "/v1/health"; endpoint = health; methods = get ∷ [] }
    ∷ record { path = codes "/v1/ws"; endpoint = web_socket; methods = get ∷ [] }
    ∷ record { path = codes "/v1/export"; endpoint = export_metrics; methods = get ∷ [] }
    ∷ record { path = codes "/v1/import"; endpoint = import_metrics; methods = post ∷ [] }
    ∷ record { path = codes "/"; endpoint = dashboard; methods = get ∷ [] }
    ∷ []

pub record Response : Type 0 where
  pub status : ℕ
  pub headers : Dict Bytes

abbrev pub allow_origin : Bytes
allow_origin = codes "Access-Control-Allow-Origin"

abbrev pub allow_credentials : Bytes
allow_credentials = codes "Access-Control-Allow-Credentials"

unfoldable pub allowed_origins : Bytes → List Bytes
allowed_origins port =
    (codes "http://localhost:" ++ port)
    ∷ (codes "http://127.0.0.1:" ++ port)
    ∷ codes "http://localhost:3000"
    ∷ codes "http://127.0.0.1:3000"
    ∷ []

-- The headers for an origin that is allowed.
unfoldable pub cors_headers : Bytes → Dict Bytes
cors_headers origin = insert allow_credentials (codes "true") (
    insert (codes "Access-Control-Allow-Headers") (codes "Content-Type, Authorization") (
      insert (codes "Access-Control-Allow-Methods") (codes "GET, POST, OPTIONS")
        (insert allow_origin origin [])))

-- `next` is what the handler makes of the headers that are set.
unfoldable pub cors_middleware : Bytes → Bytes → Bytes → (Dict Bytes → Response) → Response
cors_middleware port origin method next =
    let allowed = any (λ o. str_eq origin o) (allowed_origins port) in
    let headers = if allowed then cors_headers origin else [] in
    if str_eq method (codes "OPTIONS")
    then record { status = 200; headers = headers }
    else next headers
