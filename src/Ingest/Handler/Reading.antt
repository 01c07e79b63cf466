-- ===== src/Ingest/Handler/Reading.antt =====
-- pkg/ingest/handler.go: a query behind an ingestion, over the storage in memory.
use tinyobs.Base.{
  ℕ, ◌<◌, ◌≡◌, refl, ap, ◌∙◌, Bool, true, List, ◌++◌, Option, some, Bytes, filter, filter-append,
  map, length, ltb, inl, inr, arith,
}
use tinyobs.Ingest.Cardinality.{CardinalityTracker}
use tinyobs.Ingest.Handler.Atomic.{handle_ingest_atomic}
use tinyobs.Ingest.Handler.Queries.{QueryParams, found, query_request, handle_query}
use tinyobs.Ingest.Handler.{Usage, stamp, handle_ingest}
use tinyobs.Metric.{Metric, Time}
use tinyobs.Storage.Memory.Queries.{query-filter}
use tinyobs.Storage.Memory.{Storage, memory_ops, matches}

module _ {V : Type 0} (parse_rfc3339 parse_simple : Bytes → Option Time) where
  -- What a query finds in a storage.
  abbrev pub found_in : Time → QueryParams → List (Metric V) → List (Metric V)
  found_in now r ms = filter (matches (query_request parse_rfc3339 parse_simple now r)) ms

  handle_query-filter :
      (now : Time) (r : QueryParams) (s : Storage V)
      → r.is_get ≡ true
      → (let req = query_request parse_rfc3339 parse_simple now r in req.start < req.end)
      → handle_query parse_rfc3339 parse_simple memory_ops now r s
        ≡ found (found_in now r s.metrics) (length (found_in now r s.metrics))
  unfolding handle_query
  handle_query-filter now r s get order =
      let req = query_request parse_rfc3339 parse_simple now r in
      let forward : ltb req.start req.end ≡ true = ground (arith, order) in
      rw (get, forward, query-filter s req) refl

  -- What is ingested is found: once `HandleIngest` over the storage in memory has answered 200,
  -- `HandleQuery` finds for every valid request what it would have found before and, behind it, all
  -- the samples of the ingestion that match the request, with their time, or that of the ingestion
  -- if they had none.
  pub handle_query-handle_ingest :
      (clock : ℕ → Time) (is_post : Bool) (ms : List (Metric V)) (u : Usage) (now later : Time)
      (c : CardinalityTracker) (s : Storage V) (r : QueryParams)
      → (handle_ingest memory_ops clock is_post (some ms) u now c s).0 ≡ 200
      → r.is_get ≡ true
      → (let req = query_request parse_rfc3339 parse_simple later r in req.start < req.end)
      → (let all = found_in later r s.metrics ++ found_in later r (map (stamp now) ms) in
          handle_query parse_rfc3339 parse_simple memory_ops later r
            (handle_ingest memory_ops clock is_post (some ms) u now c s).2
          ≡ found all (length all))
  handle_query-handle_ingest clock is_post ms u now later c s r done get order =
      elim (handle_ingest_atomic clock is_post ms u now c s) [
        | inl (_, _, _, stored) ↦
            handle_query-filter later r _ get order
            ∙ ap (λ xs. found xs (length xs))
                (ap (found_in later r) stored ∙ filter-append _ s.metrics (map (stamp now) ms))
        | inr (failed, _) ↦ absurd (failed done)
      ]
