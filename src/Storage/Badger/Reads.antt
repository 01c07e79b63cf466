-- ===== src/Storage/Badger/Reads.antt =====
-- pkg/storage/badger/badger.go, `Query`: the scan of one prefix for each name, or of everything.
use tinyobs.Base.{
  ℕ, suc, ◌%◌, Bool, true, false, not, ◌&&◌, ◌||◌, List, [], ◌∷◌, ◌++◌, none, some, Bytes, Dict,
  str_eq, if◌then◌else◌, ltb, leb, ◌==◌, length, any,
}
use tinyobs.Metric.{Metric}
use tinyobs.Storage.Badger.{Library, Context}
use tinyobs.Storage.Badger.Keys.{put_uint, uint16}
use tinyobs.Storage.Memory.{labels_match}
use tinyobs.Storage.{QueryRequest}

unfoldable pub matches_query : {V : Type 0} → Metric V → QueryRequest → Bool
matches_query m req =
    if ltb m.timestamp req.start || ltb req.end m.timestamp
    then false
    else (if ltb 0 (length req.metric_names) && not (any (λ n. str_eq m.name n) req.metric_names)
        then false
        else labels_match m.label_map req.labels)

-- `[name_length (2 bytes)][metric_name]`
unfoldable pub name_prefix : Bytes → Bytes
name_prefix name = put_uint 2 (uint16 (length name)) ++ name

-- The variables of the transaction: `iterCount`, `results`, and whether it ended in an error.
pub record Scan (V : Type 0) : Type 0 where
  pub iter_count : ℕ
  pub results : List (Metric V)
  pub failed : Bool

module _ {V D : Type 0} (lib : Library V D) (ctx : Context) (req : QueryRequest) where
  abbrev pub is_full : Scan V → Bool
  is_full s = ltb 0 req.limit && leb req.limit (length s.results)

  -- The function given to `item.Value`.
  unfoldable pub visit : Scan V → Bytes → Scan V
  visit s v = elim (lib.decode v) [
    | none ↦ record s { failed = true }
    | some m ↦ if matches_query m req then record s { results = s.results ++ m ∷ [] } else s
  ]

  unfoldable pub scan_items : Scan V → Dict Bytes → Scan V
  scan_items s [] = s
  scan_items s ((k, v) ∷ rest) =
      let n = suc s.iter_count in
      let s' = visit (record s { iter_count = n }) v in
      let go_on = scan_items s' rest in
      if n % 1000 == 0 && ctx.cancelled n
      then record s { iter_count = n; failed = true }
      else (if s'.failed || is_full s' then s' else go_on)

  unfoldable pub scan_names : D → Scan V → List Bytes → Scan V
  scan_names d s [] = s
  scan_names d s (name ∷ names) =
      let s' = scan_items s (lib.scan (name_prefix name) d) in
      let go_on = scan_names d s' names in if s'.failed || is_full s' then s' else go_on

  unfoldable pub run_scan : D → Scan V
  run_scan d =
      let s : Scan V = record { iter_count = 0; results = []; failed = false } in
      if ltb 0 (length req.metric_names)
      then scan_names d s req.metric_names
      else scan_items s (lib.items d)

  -- The results, and whether the error is nil.
  unfoldable pub query : D → List (Metric V) × Bool
  query d =
      if ctx.expired || ctx.interrupted
      then ([], false)
      else ((run_scan d).results, not (run_scan d).failed)
