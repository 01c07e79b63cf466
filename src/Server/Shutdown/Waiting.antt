-- ===== src/Server/Shutdown/Waiting.antt =====
-- cmd/server/main.go: what has ended when the storage is closed.
use tinyobs.Base.{ℕ, ◌+◌, ◌≡◌, ◌≢◌, refl, ap, true, arith}
use tinyobs.Server.Shutdown.{
  Task, selecting, compacting, delaying, returned, Worker, idle, busy, stuck, ended, closed,
  Process, started, Retries, done, fails, tries_again, gives_up, Works, takes_up, finishes, Step,
  scheduler_runs, initial_runs, ticks, scheduler_stops, hub_works, hub_sticks, hub_stops,
  broadcaster_works, broadcaster_stops, gc_works, gc_stops, signal, all_done, times_out, Steps,
  stay, then_step,
}

-- 1 for a goroutine that has not returned.
abbrev pub runs : Task → ℕ
runs selecting = 1
runs compacting = 1
runs delaying = 1
runs returned = 0

abbrev pub works : Worker → ℕ
works idle = 1
works busy = 1
works stuck = 1
works ended = 0

-- The counter of the WaitGroup tells how many of the four goroutines have not returned; when the
-- storage has been closed behind `wg.Wait()`, it is 0.
record IsCounted (p : Process) : Type 0 where
  counted : runs p.scheduler + works p.hub + works p.broadcaster + works p.gc ≡ p.wg
  waited : p.main ≡ closed true → p.wg ≡ 0

runs-Retries : {b : _} {s t : Task} → Retries b selecting s t → runs t ≡ runs s
runs-Retries done = refl
runs-Retries fails = refl
runs-Retries tries_again = refl
runs-Retries (gives_up h) = refl

works-Works : {v w : Worker} → Works v w → works w ≡ works v
works-Works takes_up = refl
works-Works finishes = refl

IsCounted-Step : {p q : Process} → IsCounted p → Step p q → IsCounted q
IsCounted-Step h (scheduler_runs p t r) = record {
  counted = omega (arith, runs-Retries r, h.counted);
  waited = h.waited;
}
IsCounted-Step h (initial_runs p t r) = record { counted = h.counted; waited = h.waited }
IsCounted-Step h (ticks p at) = record {
  counted = omega (arith, ap runs at, h.counted);
  waited = h.waited;
}
IsCounted-Step h (scheduler_stops p n at b e) = record {
  counted = omega (arith, ap runs at, h.counted, e);
  waited = λ c. omega (arith, h.waited c, e);
}
IsCounted-Step h (hub_works p w r) = record {
  counted = omega (arith, works-Works r, h.counted);
  waited = h.waited;
}
IsCounted-Step h (hub_sticks p at) = record {
  counted = omega (arith, ap works at, h.counted);
  waited = h.waited;
}
IsCounted-Step h (hub_stops p n at b e) = record {
  counted = omega (arith, ap works at, h.counted, e);
  waited = λ c. omega (arith, h.waited c, e);
}
IsCounted-Step h (broadcaster_works p w r) = record {
  counted = omega (arith, works-Works r, h.counted);
  waited = h.waited;
}
IsCounted-Step h (broadcaster_stops p n at b e) = record {
  counted = omega (arith, ap works at, h.counted, e);
  waited = λ c. omega (arith, h.waited c, e);
}
IsCounted-Step h (gc_works p w r) = record {
  counted = omega (arith, works-Works r, h.counted);
  waited = h.waited;
}
IsCounted-Step h (gc_stops p n at b e) = record {
  counted = omega (arith, ap works at, h.counted, e);
  waited = λ c. omega (arith, h.waited c, e);
}
IsCounted-Step h (signal p at) = record { counted = h.counted; waited = λ c. absurd cc }
IsCounted-Step h (all_done p at none) = record { counted = h.counted; waited = λ c. none }
IsCounted-Step h (times_out p at) = record { counted = h.counted; waited = λ c. absurd cc }

Steps-IsCounted : {p : Process} → Steps started p → IsCounted p
Steps-IsCounted stay = record { counted = refl; waited = λ c. absurd cc }
Steps-IsCounted (then_step steps step) = IsCounted-Step (Steps-IsCounted steps) step

returned_of_runs : (t : Task) → runs t ≡ 0 → t ≡ returned
returned_of_runs returned e = refl
returned_of_runs t e = absurd (omega (arith, e))

ended_of_works : (w : Worker) → works w ≡ 0 → w ≡ ended
ended_of_works ended e = refl
ended_of_works w e = absurd (omega (arith, e))

-- Whatever the goroutines do: when `main` closes the storage behind `wg.Wait()`, and not behind the
-- timeout, the schedule of the compaction and the goroutines of the hub, the broadcaster and the
-- garbage collection have returned.
pub Steps-returned :
    {p : Process}
    → Steps started p
    → p.main ≡ closed true
    → (p.scheduler ≡ returned) × (p.hub ≡ ended) × (p.broadcaster ≡ ended) × (p.gc ≡ ended)
Steps-returned {p} steps end =
    let c = Steps-IsCounted steps in
    let none = c.waited end in
    let all = c.counted in
    (
      returned_of_runs p.scheduler (omega (arith, none, all)),
      ended_of_works p.hub (omega (arith, none, all)),
      ended_of_works p.broadcaster (omega (arith, none, all)),
      ended_of_works p.gc (omega (arith, none, all)),
    )

-- A hub that waits for itself does so for ever.
stuck-Step : {p q : Process} → Step p q → p.hub ≡ stuck → q.hub ≡ stuck
stuck-Step (scheduler_runs p t r) h = h
stuck-Step (initial_runs p t r) h = h
stuck-Step (ticks p at) h = h
stuck-Step (scheduler_stops p n at b e) h = h
stuck-Step (hub_works p w r) h = absurd (not_stuck r h)
  where
    not_stuck : {v w : Worker} → Works v w → v ≡ stuck → ⊥
    not_stuck takes_up e = cc
    not_stuck finishes e = cc
stuck-Step (hub_sticks p at) h = refl
stuck-Step (hub_stops p n at b e) h = absurd cc
stuck-Step (broadcaster_works p w r) h = h
stuck-Step (broadcaster_stops p n at b e) h = h
stuck-Step (gc_works p w r) h = h
stuck-Step (gc_stops p n at b e) h = h
stuck-Step (signal p at) h = h
stuck-Step (all_done p at none) h = h
stuck-Step (times_out p at) h = h

-- Once the hub waits for itself, `main` does not come past `wg.Wait()` any more, whatever the others
-- do: only the timeout lets it end.
pub Steps-stuck :
    {p q : Process} → Steps started p → p.hub ≡ stuck → Steps p q → q.main ≢ closed true
Steps-stuck {p} {q} steps at more end =
    let hub = (Steps-returned (follow more) end).1 in let same = stays more in cc
  where
    follow : {r : Process} → Steps p r → Steps started r
    follow stay = steps
    follow (then_step k s) = then_step (follow k) s

    stays : {r : Process} → Steps p r → r.hub ≡ stuck
    stays stay = at
    stays (then_step k s) = stuck-Step s (stays k)
