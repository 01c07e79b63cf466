-- ===== src/Export.antt =====
-- pkg/export/import.go, from the decoded metrics on. `now` is `time.Now()`; the texts of the result
-- and of the validation errors are left out.
pub mod Batches
pub mod Exporter
pub mod Handler
pub mod Windows
pub mod Restore
use tinyobs.Base.{
  ℕ, zero, suc, ◌+◌, ◌-◌, ◌*◌, ◌==◌, not, ◌&&◌, ◌||◌, Bool, true, false, List, [], ◌∷◌, Option,
  none, some, length, take, drop, filter, ltb, if◌then◌else◌, str_eq,
}
use tinyobs.Metric.{Metric, Time, hour, counter_type, gauge_type, histogram_type}
use tinyobs.Query.Outcome.{Outcome, ok, out_of_fuel, ◌>>=◌}
use tinyobs.Storage.{StorageOps}

abbrev pub max_import_batch_size : ℕ
max_import_batch_size = 5000

pub record ImportResult : Type 0 where
  pub metrics_imported : ℕ
  pub batches_written : ℕ
  pub min_time : Time
  pub max_time : Time
  pub errors : ℕ  -- the length of the list of errors

module _ {V : Type 0} where
  -- `validateImportedMetric(m) == nil`
  unfoldable pub validate_imported_metric : Time → Metric V → Bool
  validate_imported_metric now m =
      if length m.name == 0
      then false
      else (if not
            (str_eq m.type counter_type || str_eq m.type gauge_type || str_eq m.type histogram_type)
          then false
          else (if m.timestamp == 0
              then false
              else (if ltb m.timestamp (now - 10 * 365 * 24 * hour)
                  then false
                  else not (ltb (now + 24 * hour) m.timestamp))))

  -- The loop that computes the time range.
  unfoldable pub range_loop : Time → Time → List (Metric V) → Time × Time
  range_loop lo hi [] = (lo, hi)
  range_loop lo hi (m ∷ ms) =
      range_loop (if ltb m.timestamp lo then m.timestamp else lo)
        (if ltb hi m.timestamp then m.timestamp else hi) ms

  unfoldable pub time_range : List (Metric V) → Time × Time
  time_range [] = (0, 0)
  time_range (m ∷ ms) = range_loop m.timestamp m.timestamp (m ∷ ms)

module _ {V S : Type 0} (ops : StorageOps V S) where
  -- The loop over batches, from the batch with the number `n` on: the storage afterwards, and the
  -- number of batches, or `none` where a write failed.
  unfoldable pub write_batches : ℕ → ℕ → S → List (Metric V) → Outcome (S × Option ℕ)
  write_batches fuel n s [] = ok (s, some n)
  write_batches zero n s (m ∷ ms) = out_of_fuel
  write_batches (suc fuel) n s (m ∷ ms) =
      let written = ops.write s (take max_import_batch_size (m ∷ ms)) in
      let go_on = write_batches fuel (suc n) written.0 (drop max_import_batch_size (m ∷ ms)) in
      if written.1 then go_on else ok (written.0, none)

  -- What the import answers once the batches are written.
  unfoldable pub import_result :
      List (Metric V) → List (Metric V) → S × Option ℕ → S × Option ImportResult
  import_result ms valid (s, none) = (s, none)
  import_result ms valid (s, some n) = (
    s,
    some (record {
      metrics_imported = length valid;
      batches_written = n;
      min_time = (time_range valid).0;
      max_time = (time_range valid).1;
      errors = length ms - length valid;
    }),
  )

  unfoldable pub import_from_json : Time → S → List (Metric V) → Outcome (S × Option ImportResult)
  import_from_json now s ms =
      let valid = filter (validate_imported_metric now) ms in
      let run =
        write_batches (length valid) 0 s valid >>= λ written. ok (import_result ms valid written) in
      let nothing : ImportResult = record {
        metrics_imported = 0;
        batches_written = 0;
        min_time = 0;
        max_time = 0;
        errors = 0;
      } in
      if length ms == 0 then ok (s, some nothing) else run
