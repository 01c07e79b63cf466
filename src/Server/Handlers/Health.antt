-- ===== src/Server/Handlers/Health.antt =====
-- pkg/server: what the health check answers behind a run of the compaction.
use tinyobs.Base.{
  ℕ, ◌+◌, ◌≡◌, ◌≤◌, ◌<◌, ◌⊎◌, refl, inl, inr, Bool, true, false, Bytes, Option, none, arith,
}
use tinyobs.Metric.{Time, hour}
use tinyobs.Server.Handlers.{handle_health}
use tinyobs.Server.Monitor.{CompactionMonitor, is_healthy}
use tinyobs.Server.Tasks.Health.{state_at, AllFail, run_with_retry-is_healthy}
use tinyobs.Server.Tasks.{run_with_retry}

recent :
    (now : Time) (cm : CompactionMonitor)
    → 0 < cm.last_success
    → now ≤ cm.last_success + hour
    → cm.consecutive_errors ≡ 0
    → is_healthy now cm ≡ true
unfolding is_healthy
recent now cm h k e = ground (arith, h, k, e)

module _ {S : Type 0} (compact : S → S × Option Bytes) (clock : ℕ → Time) (stopped : ℕ → Bool)
    (goes_on : (n : ℕ) → stopped n ≡ false) (runs : (n : ℕ) → 0 < clock n) where
  -- What the health check says of a run of the compaction that is not stopped, at times that are not
  -- zero: either one of its at most four attempts is the first that ends without an error, and then
  -- the check answers 200 up to an hour behind that attempt; or all four end in an error, and then it
  -- answers 503 at any time, whatever has succeeded before.
  pub handle_health-run_with_retry :
      (s : S) (cm : CompactionMonitor) (start_time : Time)
      → (let after = (run_with_retry compact clock stopped s cm).1 in
          ((n : ℕ) × (n < 4)
            × AllFail compact n s
            × ((compact (state_at compact n s)).1 ≡ none)
            × ((checked now : Time)
                → checked ≤ clock n + hour
                → (handle_health start_time checked now after).0 ≡ 200))
          ⊎ AllFail compact 4 s
            × ((checked now : Time) → (handle_health start_time checked now after).0 ≡ 503))
  unfolding handle_health
  handle_health-run_with_retry s cm start_time =
      elim (run_with_retry-is_healthy compact clock stopped goes_on s cm) [
        | inl (n, few, before, done, none_left, time) ↦ inl (
          n,
          few,
          before,
          done,
          λ checked now soon.
              let after : CompactionMonitor = (run_with_retry compact clock stopped s cm).1 in
              let ran : 0 < after.last_success = omega (arith, time, runs n) in
              let soon' : checked ≤ after.last_success + hour = omega (arith, time, soon) in
              let healthy : is_healthy checked after ≡ true =
                recent checked after ran soon' none_left in
              rw healthy refl,
        )
        | inr (all, failing) ↦ inr (all, λ checked now. rw (failing checked) refl)
      ]
