-- ===== src/Server/Tasks.antt =====
-- pkg/server/tasks.go: the retries of `RunCompaction`, and the delays of `BroadcastMetrics`. The
-- compaction is a function on a state `S`, with the text of its error; `clock` gives the time of an
-- attempt, and `stopped` whether `stop` ends the delay before it.
pub mod Health
pub mod Broadcasting
use tinyobs.Base.{
  ℕ, zero, suc, ◌+◌, ◌-◌, ◌*◌, ◌^◌, ◌==◌, not, ◌&&◌, ◌||◌, Bool, true, false, Bytes, Option, none,
  some, ltb, leb, if◌then◌else◌,
}
use tinyobs.Metric.{Time, second, minute}
use tinyobs.Server.Monitor.{CompactionMonitor, record_success, record_failure}

abbrev pub max_retries : ℕ
max_retries = 3

-- The delay before an attempt but the first: 30s, 60s, 120s.
unfoldable pub retry_delay : ℕ → ℕ
retry_delay attempt = 30 * second * 2 ^ (attempt - 1)

module _ {S : Type 0} (compact : S → S × Option Bytes) (clock : ℕ → Time) (stopped : ℕ → Bool) where
  -- The loop, with the number of attempts that are left.
  unfoldable pub retry_loop : ℕ → ℕ → S → CompactionMonitor → S × CompactionMonitor
  retry_loop zero attempt s cm = (s, cm)
  retry_loop (suc left) attempt s cm =
      let again : Bytes → S × CompactionMonitor = λ text.
        retry_loop left (suc attempt) (compact s).0 (record_failure (clock attempt) text cm) in
      if ltb 0 attempt && stopped attempt then (s, cm) else (elim (compact s).1 [
        | none ↦ ((compact s).0, record_success (clock attempt) cm)
        | some text ↦ again text
      ])

  unfoldable pub run_with_retry : S → CompactionMonitor → S × CompactionMonitor
  run_with_retry s cm = retry_loop (suc max_retries) 0 s cm

-- `BroadcastMetrics`: the delay for the error with the given number, and the state of its log.
unfoldable pub backoff : ℕ → ℕ
backoff consecutive_errors =
    let exp = if ltb 8 (consecutive_errors - 1) then 8 else consecutive_errors - 1 in
    let delay = 2 ^ exp * second in if ltb (5 * minute) delay then 5 * minute else delay

pub record ErrorState : Type 0 where
  pub consecutive_errors : ℕ
  pub last_error_time : Time

-- An error: the new state, and whether it is logged.
unfoldable pub on_error : Time → ErrorState → ErrorState × Bool
on_error now e =
    let n = suc e.consecutive_errors in
    if e.last_error_time == 0 || leb (backoff n) (now - e.last_error_time)
    then (record { consecutive_errors = n; last_error_time = now }, true)
    else (record e { consecutive_errors = n }, false)

unfoldable pub on_success : ErrorState → ErrorState
on_success e = record e { consecutive_errors = 0 }
