-- ===== src/Server/Setup/Limit.antt =====
-- cmd/server/main.go and pkg/server/setup.go: the limit in bytes, and what the ingestion makes of it.
use tinyobs.Base.{
  ℕ, ◌*◌, ◌^◌, ◌≤◌, ◌<◌, ◌≡◌, refl, false, true, List, some, length, ltb, leb, arith,
}
use tinyobs.Ingest.Cardinality.{CardinalityTracker}
use tinyobs.Ingest.Handler.{usage, handle_ingest}
use tinyobs.Ingest.Limits.{max_metrics_per_request}
use tinyobs.Metric.{Metric, Time}
use tinyobs.Server.Setup.{Config, max_storage_bytes}
use tinyobs.Storage.{StorageOps}

module _ {V S : Type 0} (ops : StorageOps V S) (clock : ℕ → Time) where
  full :
      (limit : ℕ) (ms : List (Metric V)) (used : ℕ) (now : Time) (c : CardinalityTracker) (s : S)
      → limit ≡ 0
      → length ms ≤ max_metrics_per_request
      → handle_ingest ops clock true (some ms) (usage used limit) now c s ≡ (507, c, s)
  unfolding handle_ingest
  full limit ms used now c s none_left few =
      let fits : ltb max_metrics_per_request (length ms) ≡ false = ground (arith, few) in
      let refuses : leb limit used ≡ true = ground (arith, none_left) in rw (fits, refuses) refl

  -- A limit of less than 2^33 gigabytes is exact, and below 2^63 bytes. One of 2^34 gigabytes, or a
  -- multiple of them, becomes a limit of no bytes: then `HandleIngest` refuses every request of a
  -- size that is allowed, with status 507, however little is stored.
  pub max_storage_bytes-cases :
      (cfg : Config) (ms : List (Metric V)) (used : ℕ) (now : Time) (c : CardinalityTracker) (s : S)
      → length ms ≤ max_metrics_per_request
      → (cfg.max_storage_gb < 2 ^ 33
          → (max_storage_bytes cfg ≡ cfg.max_storage_gb * 2 ^ 30)
            × (max_storage_bytes cfg < 2 ^ 63))
        × ((k : ℕ)
            → cfg.max_storage_gb ≡ k * 2 ^ 34
            → handle_ingest ops clock true (some ms) (usage used (max_storage_bytes cfg)) now c s
              ≡ (507, c, s))
  unfolding max_storage_bytes
  max_storage_bytes-cases cfg ms used now c s few = (
    λ small. (omega (arith, small), omega (arith, small)),
    λ k over. full _ ms used now c s (omega (arith, over)) few,
  )
