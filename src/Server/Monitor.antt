-- ===== src/Server/Monitor.antt =====
-- pkg/server/monitor/compaction.go and storage.go. `now` is `time.Now()`; locks and the texts of
-- times are left out.
pub mod Sizes
use tinyobs.Base.{
  ℕ, suc, ◌-◌, ◌*◌, ◌==◌, Bool, true, false, [], Bytes, Option, none, some, ltb, if◌then◌else◌,
}
use tinyobs.Metric.{Time, second, hour}

pub record CompactionMonitor : Type 0 where
  pub last_success : Time
  pub last_attempt : Time
  pub consecutive_errors : ℕ
  pub last_error : Bytes

abbrev pub new_compaction_monitor : CompactionMonitor
new_compaction_monitor = record {
  last_success = 0;
  last_attempt = 0;
  consecutive_errors = 0;
  last_error = [];
}

unfoldable pub record_success : Time → CompactionMonitor → CompactionMonitor
record_success now cm = record cm {
  last_success = now;
  last_attempt = now;
  consecutive_errors = 0;
  last_error = [];
}

-- `RecordFailure` of an error with the given text.
unfoldable pub record_failure : Time → Bytes → CompactionMonitor → CompactionMonitor
record_failure now text cm = record cm {
  last_attempt = now;
  consecutive_errors = suc cm.consecutive_errors;
  last_error = text;
}

unfoldable pub is_healthy : Time → CompactionMonitor → Bool
is_healthy now cm =
    if cm.last_success == 0
    then false
    else (if ltb (1 * hour) (now - cm.last_success)
        then false
        else (if ltb 3 cm.consecutive_errors then false else true))

pub record CompactionStatus : Type 0 where
  pub healthy : Bool
  pub last_success : Option Time
  pub time_since_success : Option ℕ
  pub last_attempt : Option Time
  pub consecutive_errors : ℕ
  pub last_error : Bytes

unfoldable pub status : Time → CompactionMonitor → CompactionStatus
status now cm = record {
  healthy = is_healthy now cm;
  last_success = if cm.last_success == 0 then none else some cm.last_success;
  time_since_success = if cm.last_success == 0 then none else some (now - cm.last_success);
  last_attempt = if cm.last_attempt == 0 then none else some cm.last_attempt;
  consecutive_errors = cm.consecutive_errors;
  last_error = if ltb 0 cm.consecutive_errors then cm.last_error else [];
}

pub record StorageMonitor : Type 0 where
  pub max_bytes : ℕ
  pub cached_usage : ℕ
  pub last_check : Time
  pub cache_duration : ℕ

abbrev pub new_storage_monitor : ℕ → StorageMonitor
new_storage_monitor max_bytes = record {
  max_bytes = max_bytes;
  cached_usage = 0;
  last_check = 0;
  cache_duration = 10 * second;
}

-- `dir_size` is the answer of `calculateDirSize`, which is `none` where it fails.
unfoldable pub get_usage : Time → Option ℕ → StorageMonitor → StorageMonitor × Option ℕ
get_usage now dir_size sm =
    if ltb (now - sm.last_check) sm.cache_duration
    then (sm, some sm.cached_usage)
    else (elim dir_size [
      | none ↦ (sm, none)
      | some usage ↦ (record sm { cached_usage = usage; last_check = now }, some usage)
    ])
