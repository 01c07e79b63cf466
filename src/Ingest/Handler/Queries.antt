-- ===== src/Ingest/Handler/Queries.antt =====
-- pkg/ingest/handler.go: `HandleQuery`, `HandleStats` and `HandleCardinalityStats`. The parsers of
-- times of the library are parameters; a missing parameter is an empty
-- text. `now` stands for both readings of the clock of a request.
use tinyobs.Base.{
  ℕ, ◌-◌, ◌==◌, not, Bool, List, [], ◌∷◌, Option, none, some, Bytes, length, ltb, if◌then◌else◌,
}
use tinyobs.Ingest.Cardinality.{CardinalityTracker, CardinalityStats, stats}
use tinyobs.Metric.{Metric, Time, hour}
use tinyobs.Storage.{StorageOps, QueryRequest, Stats}

-- pkg/config/config.go
abbrev pub ingest_default_query_window : ℕ
ingest_default_query_window = hour

pub record QueryParams : Type 0 where
  pub is_get : Bool
  pub start : Bytes
  pub end : Bytes
  pub metric : Bytes

-- An error with its status, or the metrics and their count with status 200.
pub data QueryAnswer (V : Type 0) : Type 0 where
  refused : ℕ → QueryAnswer V
  found : List (Metric V) → ℕ → QueryAnswer V

module _ (parse_rfc3339 parse_simple : Bytes → Option Time) where
  unfoldable pub parse_time_param : Bytes → Time → Time
  parse_time_param param default =
      if length param == 0 then default else elim (parse_rfc3339 param) [
        | some t ↦ t
        | none ↦ elim (parse_simple param) [ some t ↦ t | none ↦ default ]
      ]

  abbrev pub query_request : Time → QueryParams → QueryRequest
  query_request now r = record {
    start = parse_time_param r.start (now - ingest_default_query_window);
    end = parse_time_param r.end now;
    metric_names = if length r.metric == 0 then [] else r.metric ∷ [];
    labels = [];
    limit = 0;
  }

  module _ {V S : Type 0} (ops : StorageOps V S) where
    unfoldable pub handle_query : Time → QueryParams → S → QueryAnswer V
    handle_query now r s =
        let req = query_request now r in
        if not r.is_get
        then refused 405
        else if not (ltb req.start req.end)
        then refused 400
        else elim (ops.query s req) [
          | none ↦ refused 500
          | some results ↦ found results (length results)
        ]

-- `storage_stats` is `Stats` of the storage, and `none` an answer with status 500.
abbrev pub handle_stats : {S : Type 0} → (S → Option Stats) → S → Option Stats
handle_stats storage_stats s = storage_stats s

abbrev pub handle_cardinality_stats : CardinalityTracker → CardinalityStats
handle_cardinality_stats c = stats c
