-- ===== src/Tests/ServerTests.antt =====
-- The monitors, and a run of the compaction whose second attempt succeeds.
use tinyobs.Base.{
  ℕ, suc, ◌+◌, ◌*◌, ◌^◌, ◌≡◌, ◌≢◌, ◌≤◌, ◌<◌, ◌⊎◌, ◌==◌, ◌&&◌, ◌++◌, not, refl, arith, Bool, true,
  false, Bytes, Dict, List, [], ◌∷◌, Option, none, some, codes, any, map, lookup, str_eq,
  if◌then◌else◌,
}
use tinyobs.Ingest.Websocket.{MetricsHub, new_metrics_hub, has_clients}
use tinyobs.Metric.{Time, hour, second}
use tinyobs.Server.Handlers.Health.{handle_health-run_with_retry}
use tinyobs.Server.Handlers.Origins.{IsLocal, cors_middleware-IsLocal}
use tinyobs.Server.Handlers.{
  handle_health, cors_middleware, Response, Route, routes, allow_origin, allow_credentials,
}
use tinyobs.Server.Monitor.{
  new_compaction_monitor, record_success, record_failure, get_usage, new_storage_monitor,
}
use tinyobs.Server.Setup.{max_storage_bytes}
use tinyobs.Server.Shutdown.Waiting.{Steps-returned, Steps-stuck}
use tinyobs.Server.Shutdown.{
  Process, returned, ended, stuck, busy, takes_up, waiting, closed, started, signal,
  scheduler_stops, hub_works, hub_sticks, hub_stops, broadcaster_stops, gc_stops, all_done, Steps,
  stay, then_step,
}
use tinyobs.Server.Tasks.Broadcasting.{broadcast_tick}
use tinyobs.Server.Tasks.Health.{state_at, AllFail}
use tinyobs.Server.Tasks.{run_with_retry, retry_loop, retry_delay, backoff, on_error}
use tinyobs.Storage.Memory.{Storage, memory_ops}

-- The state counts the attempts.
abbrev compact : ℕ → ℕ × Option Bytes
compact n = (suc n, if n == 1 then none else some (codes "disk full"))

abbrev clock : ℕ → Time
clock n = 5 * hour + n * 30 * second

abbrev never : ℕ → Bool
never n = false

second_succeeds :
    run_with_retry compact clock never 0 new_compaction_monitor
    ≡ (2, record_success (clock 1) new_compaction_monitor)
unfolding run_with_retry retry_loop record_success record_failure
second_succeeds = refl

third_delay : retry_delay 3 ≡ 120 * second
unfolding retry_delay
third_delay = refl

long_backoff : backoff 20 ≡ 256 * second
unfolding backoff
long_backoff = refl

-- Within ten seconds the cached usage is given.
cached :
    (get_usage (hour + 9 * second) (some 7) (get_usage hour (some 5) (new_storage_monitor 100)).0).1
    ≡ some 5
unfolding get_usage
cached = refl

handle_health-run_with_retry_example :
    (let after = (run_with_retry compact clock never 0 new_compaction_monitor).1 in
      ((n : ℕ) × (n < 4)
        × AllFail compact n 0
        × ((compact (state_at compact n 0)).1 ≡ none)
        × ((checked now : Time)
            → checked ≤ clock n + hour
            → (handle_health 1 checked now after).0 ≡ 200))
      ⊎ AllFail compact 4 0 × ((checked now : Time) → (handle_health 1 checked now after).0 ≡ 503))
handle_health-run_with_retry_example =
    handle_health-run_with_retry compact clock never (λ n. refl) (λ n. omega arith) 0
      new_compaction_monitor 1

-- All goroutines that `main` waits for have returned, while the initial compaction still runs.
abbrev ended_well : Process
ended_well = record started {
  scheduler = returned;
  hub = ended;
  broadcaster = ended;
  gc = ended;
  wg = 0;
  stopped = true;
  main = closed true;
}

abbrev to_end : Steps started ended_well
to_end =
    then_step
      (then_step
        (then_step
          (then_step
            (then_step (then_step stay (signal started refl)) (gc_stops _ 3 refl refl refl))
            (hub_stops _ 2 refl refl refl))
          (scheduler_stops _ 1 refl refl refl))
        (broadcaster_stops _ 0 refl refl refl))
      (all_done _ refl refl)

Steps-returned_example :
    (ended_well.scheduler ≡ returned)
    × (ended_well.hub ≡ ended)
    × (ended_well.broadcaster ≡ ended)
    × (ended_well.gc ≡ ended)
Steps-returned_example = Steps-returned to_end refl

-- The hub sticks, and then the signal comes.
abbrev with_stuck_hub : Process
with_stuck_hub = record started { hub = stuck }

abbrev told : Process
told = record with_stuck_hub { stopped = true; main = waiting }

abbrev to_stuck : Steps started with_stuck_hub
to_stuck = then_step (then_step stay (hub_works started busy takes_up)) (hub_sticks _ refl)

Steps-stuck_example : told.main ≢ closed true
Steps-stuck_example = Steps-stuck to_stuck refl (then_step stay (signal with_stuck_hub refl))

abbrev dashboard_origin : Bytes
dashboard_origin = codes "http://localhost:8080"

abbrev answer_all : Dict Bytes → Response
answer_all headers = record { status = 200; headers = headers }

cors_middleware-IsLocal_example :
    (let headers =
        (cors_middleware (codes "8080") dashboard_origin (codes "GET") answer_all).headers in
      ((lookup allow_origin headers ≡ none) × (lookup allow_credentials headers ≡ none))
      ⊎ (lookup allow_origin headers ≡ some dashboard_origin)
        × IsLocal (codes "8080") dashboard_origin)
cors_middleware-IsLocal_example =
    cors_middleware-IsLocal (codes "8080") dashboard_origin (codes "GET") answer_all
      (λ headers. (refl, refl))

-- 2^34 gigabytes are no bytes.
no_bytes :
    max_storage_bytes
      (record { max_storage_gb = 2 ^ 34; max_memory_mb = 48; data_dir = []; port = [] })
    ≡ 0
unfolding max_storage_bytes
no_bytes = refl

-- No two routes serve the same method of the same path.
abbrev route_keys : List Route → List Bytes
route_keys [] = []
route_keys (r ∷ rs) = map (λ m. m ++ r.path) r.methods ++ route_keys rs

abbrev are_distinct : List Bytes → Bool
are_distinct [] = true
are_distinct (k ∷ ks) = not (any (λ j. str_eq j k) ks) && are_distinct ks

routes_distinct : are_distinct (route_keys routes) ≡ true
unfolding str_eq
routes_distinct = refl

abbrev quiet : MetricsHub
quiet = record new_metrics_hub { clients = 4 ∷ [] }

-- A tick with a failing storage counts an error, and sends nothing.
failing_tick :
    broadcast_tick
      (record memory_ops { query = λ (s : Storage ℕ) req. none })
      (λ now ms. some [])
      hour
      (record { metrics = []; max_metrics = 1 })
      quiet
      (record { consecutive_errors = 0; last_error_time = 0 })
    ≡ (quiet, record { consecutive_errors = 1; last_error_time = hour })
unfolding broadcast_tick has_clients on_error backoff
failing_tick = refl
