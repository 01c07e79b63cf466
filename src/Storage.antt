-- ===== src/Storage.antt =====
-- pkg/storage: the requests and answers that every storage backend understands (interface.go), and
-- the backend in memory.
pub mod Memory
pub mod Badger
use tinyobs.Base.{ℕ, Bool, List, Bytes, Option, codes, []}
use tinyobs.Metric.{Time, Labels, Metric}

abbrev pub Resolution : Type 0
Resolution = Bytes

abbrev pub resolution_raw : Resolution
resolution_raw = []

abbrev pub resolution_5m : Resolution
resolution_5m = codes "5m"

abbrev pub resolution_1h : Resolution
resolution_1h = codes "1h"

pub record QueryRequest : Type 0 where
  pub start : Time
  pub end : Time
  pub metric_names : List Bytes
  pub labels : Labels
  pub limit : ℕ

pub record DeleteOptions : Type 0 where
  pub before : Time
  pub resolution : Option Resolution

pub record Stats : Type 0 where
  pub total_metrics : ℕ
  pub total_series : ℕ
  pub size_bytes : ℕ
  pub oldest_metric : Time
  pub newest_metric : Time

-- `Storage`: the calls that the compactor makes, on a state `S`. A failed call returns `none`, or
-- the state that it left and `false`.
pub record StorageOps (V S : Type 0) : Type 0 where
  pub write : S → List (Metric V) → S × Bool
  pub query : S → QueryRequest → Option (List (Metric V))
  pub delete : S → DeleteOptions → S × Bool
