-- ===== src/Sdk/Middleware.antt =====
-- pkg/sdk/httpx/middleware.go: what the middleware counts of a request. `codes_written` are the
-- codes that the handler gives to `WriteHeader`, in their order; `duration` is the time it takes, in
-- seconds.
use tinyobs.Base.{ℕ, List, [], ◌∷◌, Bytes, codes}
use tinyobs.Compaction.Decimal.{format_uint}
use tinyobs.Float.{FloatOps}
use tinyobs.Metric.{Metric, Time}
use tinyobs.Sdk.Client.{Client, counter, histogram}
use tinyobs.Sdk.Collectors.{Counter, counter_inc}
use tinyobs.Sdk.Histogram.{Histogram, observe}
use tinyobs.Sdk.Paths.{normalize_path}

pub record ResponseWriter : Type 0 where
  pub status_code : ℕ

abbrev pub write_header : ℕ → ResponseWriter → ResponseWriter
write_header code rw = record rw { status_code = code }

-- The calls of `WriteHeader`.
unfoldable pub write_headers : ResponseWriter → List ℕ → ResponseWriter
write_headers rw [] = rw
write_headers rw (code ∷ more) = write_headers (write_header code rw) more

abbrev pub request_labels : Bytes → Bytes → List ℕ → List Bytes
request_labels method path codes_written =
    codes "method"
    ∷ method
    ∷ codes "path"
    ∷ normalize_path path
    ∷ codes "status"
    ∷ format_uint (write_headers (record { status_code = 200 }) codes_written).status_code
    ∷ []

module _ {V : Type 0} ⦃F : FloatOps V⦄ where
  -- The two collectors, created once.
  unfoldable pub middleware : Client V → Client V × Counter V × Histogram V
  middleware c =
      let (c', requests) = counter (codes "http_requests_total") c in
      let (c'', durations) = histogram (codes "http_request_duration_seconds") c' in
      (c'', requests, durations)

  -- A request behind its handler, with the metrics that the counter sends.
  unfoldable pub track_request :
      Time
      → Bytes
      → Bytes
      → List ℕ
      → V
      → Counter V
      → Histogram V
      → (Counter V × List (Metric V)) × Histogram V
  track_request now method path codes_written duration requests durations =
      let labels = request_labels method path codes_written in
      (counter_inc now labels requests, observe duration labels durations)
