-- ===== src/Server/Shutdown.antt =====
-- cmd/server/main.go, from the start of the goroutines on, with pkg/server/tasks.go: the goroutines
-- that `main` stops and waits for, and the initial compaction that `RunCompaction` starts apart. Each
-- rule is what one goroutine does between two points where others may run. The delay of the HTTP
-- server's own shutdown is left out.
pub mod Waiting
use tinyobs.Base.{ℕ, suc, ◌+◌, ◌≡◌, Bool, true, false}

-- Where a goroutine that compacts stands: at the select of the schedule, in `CompactAndCleanup`, in
-- the delay before another attempt, or behind its return.
pub data Task : Type 0 where
  selecting compacting delaying returned : Task

-- Where a goroutine of the hub, the broadcaster or the garbage collection stands: at its select, in
-- one of the cases, in a send that nobody receives (the hub only, on its own channel), or behind its
-- return.
pub data Worker : Type 0 where
  idle busy stuck ended : Worker

-- Where `main` stands: it waits for a signal, then for the goroutines; at its end, the deferred
-- `store.Close()` has run, behind `wg.Wait()`, or behind the timeout.
pub data Main : Type 0 where
  serving waiting : Main
  closed : (waited : Bool) → Main

-- `wg` is the counter of the WaitGroup; `stopped` is whether the context is cancelled and the
-- channels are closed.
pub record Process : Type 0 where
  pub scheduler : Task
  pub initial : Task
  pub hub : Worker
  pub broadcaster : Worker
  pub gc : Worker
  pub wg : ℕ
  pub stopped : Bool
  pub main : Main

-- Behind the four `wg.Add(1)`, and the start of the initial compaction.
abbrev pub started : Process
started = record {
  scheduler = selecting;
  initial = compacting;
  hub = idle;
  broadcaster = idle;
  gc = idle;
  wg = 1 + 1 + 1 + 1;
  stopped = false;
  main = serving;
}

-- A step of `runWithRetry`, which returns to `back`.
pub data Retries (stopped : Bool) (back : Task) : Task → Task → Type 0 where
  done : Retries stopped back compacting back  -- a success, or the last attempt
  fails : Retries stopped back compacting delaying
  tries_again : Retries stopped back delaying compacting
  gives_up : stopped ≡ true → Retries stopped back delaying back

-- A step of a worker within its loop.
pub data Works : Worker → Worker → Type 0 where
  takes_up : Works idle busy
  finishes : Works busy idle

-- Each goroutine that `main` waits for returns with a `wg.Done()`.
pub data Step : Process → Process → Type 0 where
  scheduler_runs :
      (p : Process) (t : Task)
      → Retries p.stopped selecting p.scheduler t
      → Step p (record p { scheduler = t })
  initial_runs :
      (p : Process) (t : Task)
      → Retries p.stopped returned p.initial t
      → Step p (record p { initial = t })
  -- the cases of the select in `RunCompaction`
  ticks : (p : Process) → p.scheduler ≡ selecting → Step p (record p { scheduler = compacting })
  scheduler_stops :
      (p : Process) (n : ℕ)
      → p.scheduler ≡ selecting
      → p.stopped ≡ true
      → p.wg ≡ suc n
      → Step p (record p { scheduler = returned; wg = n })
  -- `hub.Run`, whose send of a failed connection to `unregister` may wait for ever
  hub_works : (p : Process) (w : Worker) → Works p.hub w → Step p (record p { hub = w })
  hub_sticks : (p : Process) → p.hub ≡ busy → Step p (record p { hub = stuck })
  hub_stops :
      (p : Process) (n : ℕ)
      → p.hub ≡ idle
      → p.stopped ≡ true
      → p.wg ≡ suc n
      → Step p (record p { hub = ended; wg = n })
  -- `BroadcastMetrics`
  broadcaster_works :
      (p : Process) (w : Worker) → Works p.broadcaster w → Step p (record p { broadcaster = w })
  broadcaster_stops :
      (p : Process) (n : ℕ)
      → p.broadcaster ≡ idle
      → p.stopped ≡ true
      → p.wg ≡ suc n
      → Step p (record p { broadcaster = ended; wg = n })
  -- `RunBadgerGC`
  gc_works : (p : Process) (w : Worker) → Works p.gc w → Step p (record p { gc = w })
  gc_stops :
      (p : Process) (n : ℕ)
      → p.gc ≡ idle
      → p.stopped ≡ true
      → p.wg ≡ suc n
      → Step p (record p { gc = ended; wg = n })
  -- `cancel()`, `close(stopCompaction)` and `close(stopGC)` behind the signal
  signal : (p : Process) → p.main ≡ serving → Step p (record p { stopped = true; main = waiting })
  -- the cases of the last select: `wg.Wait()` has returned, or the five seconds are over
  all_done : (p : Process) → p.main ≡ waiting → p.wg ≡ 0 → Step p (record p { main = closed true })
  times_out : (p : Process) → p.main ≡ waiting → Step p (record p { main = closed false })

pub data Steps : Process → Process → Type 0 where
  stay : {p : Process} → Steps p p
  then_step : {p q r : Process} → Steps p q → Step q r → Steps p r
