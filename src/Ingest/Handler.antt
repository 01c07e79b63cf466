-- ===== src/Ingest/Handler.antt =====
-- pkg/ingest/handler.go, `HandleIngest`. The decoded body, the storage checker's answers and the
-- readings of `time.Now()` are arguments; the answer is the HTTP status. Contexts, timeouts, logs
-- and the texts of answers are left out.
pub mod Atomic
pub mod Full
pub mod Queries
pub mod Reading
use tinyobs.Base.{
  ℕ, ◌+◌, Bool, true, false, not, List, [], ◌∷◌, Option, none, some, map, length, ltb, leb, ◌==◌,
  if◌then◌else◌,
}
use tinyobs.Ingest.Cardinality.{CardinalityTracker, check, record_metric}
use tinyobs.Ingest.Limits.{max_metrics_per_request, validate_metric}
use tinyobs.Metric.{Time, Metric}
use tinyobs.Storage.{StorageOps}

-- What the `StorageLimitChecker` answers: it is not set, it fails, or it gives usage and limit.
pub data Usage : Type 0 where
  no_checker usage_error : Usage
  usage : ℕ → ℕ → Usage

pub data Verdict (V : Type 0) : Type 0 where
  refused : ℕ → Verdict V
  accepted : Verdict V

abbrev pub is_full : Usage → Bool
is_full (usage current limit) = leb limit current
is_full _ = false

module _ {V : Type 0} where
  -- A missing timestamp becomes the time of the request.
  unfoldable pub stamp : Time → Metric V → Metric V
  stamp now m = if m.timestamp == 0 then record m { timestamp = now } else m

  unfoldable pub check_one : Time → Metric V → CardinalityTracker → CardinalityTracker × Verdict V
  check_one now m c = elim (validate_metric m) [
    | some _ ↦ (c, refused 400)
    | none ↦ elim (check now m c).1 [
      | some _ ↦ ((check now m c).0, refused 429)
      | none ↦ ((check now m c).0, accepted)
    ]
  ]

  -- The loop over the samples; `clock i` is the time that `Check` reads in round `i`.
  unfoldable pub check_loop :
      (ℕ → Time) → ℕ → List (Metric V) → CardinalityTracker → CardinalityTracker × Verdict V
  check_loop clock i [] c = (c, accepted)
  check_loop clock i (m ∷ ms) c =
      let rest = check_loop clock (i + 1) ms (check_one (clock i) m c).0 in
      elim (check_one (clock i) m c).1 [
        | refused status ↦ ((check_one (clock i) m c).0, refused status)
        | accepted ↦ rest
      ]

  unfoldable pub record_loop :
      (ℕ → Time) → ℕ → List (Metric V) → CardinalityTracker → CardinalityTracker
  record_loop clock i [] c = c
  record_loop clock i (m ∷ ms) c = record_loop clock (i + 1) ms (record_metric (clock i) m c)

  module _ {S : Type 0} (ops : StorageOps V S) (clock : ℕ → Time) where
    -- Behind the checks: write, and record what is written.
    unfoldable pub store :
        List (Metric V) → CardinalityTracker × Verdict V → S → ℕ × CardinalityTracker × S
    store ms (c, refused status) s = (status, c, s)
    store ms (c, accepted) s =
        if (ops.write s ms).1
        then (200, record_loop clock (length ms) ms c, (ops.write s ms).0)
        else (500, c, (ops.write s ms).0)

    unfoldable pub handle_ingest :
        Bool
        → Option (List (Metric V))
        → Usage
        → Time
        → CardinalityTracker
        → S
        → ℕ × CardinalityTracker × S
    handle_ingest is_post body u now c s = if not is_post then (405, c, s) else elim body [
      | none ↦ (400, c, s)
      | some ms ↦
          if ltb max_metrics_per_request (length ms)
          then (400, c, s)
          else if is_full u
          then (507, c, s)
          else store (map (stamp now) ms) (check_loop clock 0 (map (stamp now) ms) c) s
    ]
