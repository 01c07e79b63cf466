-- ===== src/Example.antt =====
-- cmd/example: the statistics page's query (stats.go), the traffic that the example makes
-- (traffic.go), and its handlers (handlers.go). The client of HTTP with the decoder of JSON, the
-- parser of numbers and the conversion to an int64 are parameters; waiting, logs and the page are
-- left out, and a random number is an argument. An int64 is its value modulo 2^64.
use tinyobs.Base.{
  ℕ, ◌+◌, ◌%◌, ◌≤◌, ◌==◌, Bool, List, [], ◌∷◌, ◌++◌, Option, none, some, Bytes, codes, str_eq,
  if◌then◌else◌, arith,
}
use tinyobs.Compaction.Decimal.{uint64}
use tinyobs.Float.{FloatOps}
use tinyobs.Metric.{Metric, Time}
use tinyobs.Sdk.Collectors.{Counter, counter_inc}

-- A value of the decoded JSON.
pub data Json : Type 0 where
  text : Bytes → Json
  other : Json

pub record QueryResponse : Type 0 where
  pub error : Bytes
  pub result : List (List (List Json))

unfoldable pub request_body : Bytes → Bytes → Bytes → Bytes
request_body query start stop =
    codes "{\"query\":\""
    ++ query
    ++ codes "\",\"start\":\""
    ++ start
    ++ codes "\",\"end\":\""
    ++ stop
    ++ codes "\"}"

unfoldable pub latest_value : List (List Json) → List Json
latest_value [] = []
latest_value (v ∷ []) = v
latest_value (v ∷ w ∷ vs) = latest_value (w ∷ vs)

module _ {V : Type 0} (parse_float : Bytes → Option V) (to_int64 : V → ℕ) where
  -- What one series adds to the total.
  unfoldable pub parsed_value : List Json → ℕ
  parsed_value (x ∷ text t ∷ rest) = elim (parse_float t) [ none ↦ 0 | some v ↦ to_int64 v ]
  parsed_value _ = 0

  unfoldable pub total_loop : ℕ → List (List (List Json)) → ℕ
  total_loop total [] = total
  total_loop total (values ∷ rest) =
      total_loop (uint64 (total + parsed_value (latest_value values))) rest

  -- `post` gives the status and the decoded body, with `none` where it cannot be reached or decoded.
  unfoldable pub query_tiny_obs :
      (Bytes → Option (ℕ × Option QueryResponse)) → Bytes → Bytes → Bytes → ℕ
  query_tiny_obs post query start stop = elim (post (request_body query start stop)) [
    | none ↦ 0
    | some (status, body) ↦
        if status == 200
        then elim body [
          | none ↦ 0
          | some resp ↦ if str_eq resp.error [] then total_loop 0 resp.result else 0
        ]
        else 0
  ]

-- `handleUsers`: one request in fifty `fails`. The status, with the counter and what it sends.
unfoldable pub handle_users :
    {V : Type 0} ⦃F : FloatOps V⦄ → Bool → Time → Counter V → ℕ × (Counter V × List (Metric V))
handle_users fails now error_counter =
    if fails
    then (
      500,
      counter_inc now
          (codes "type" ∷ codes "api_error" ∷ codes "endpoint" ∷ codes "/api/users" ∷ [])
          error_counter,
    )
    else (200, (error_counter, []))

-- The queries of the requests and of the errors.
abbrev pub request_query : Bytes
request_query = codes "sum(http_requests_total)"

abbrev pub error_query : Bytes
error_query = codes "sum(http_requests_total{status=~\"4..|5..\"})"

-- What a tick does with the new count of requests.
unfoldable pub endpoint : ℕ → Bytes
endpoint req_count =
    if req_count % 3 == 0
    then codes "/api/users"
    else if req_count % 3 == 1
    then codes "/api/orders"
    else codes "/api/products"

unfoldable pub active_user_count : ℕ → ℕ
active_user_count req_count = (req_count % 20) + 1

-- The gauge stays between 1 and 20.
pub active_user_count_bounds : (n : ℕ) → (1 ≤ active_user_count n) × (active_user_count n ≤ 20)
unfolding active_user_count
active_user_count_bounds n = (omega arith, omega arith)
