-- ===== src/Server/Tasks/Health.antt =====
-- pkg/server/tasks.go and monitor/compaction.go: what the monitor says after a run of the compaction.
use tinyobs.Base.{
  ℕ, zero, suc, ◌+◌, ◌≡◌, ◌≢◌, ◌<◌, ◌⊎◌, refl, ap, ◌∙◌, ◌&&◌, Bool, true, false, Bytes, Option,
  none, ltb, Option-cases, inl, inr, arith,
}
use tinyobs.Metric.{Time}
use tinyobs.Server.Monitor.{CompactionMonitor, record_success, record_failure, is_healthy}
use tinyobs.Server.Tasks.{retry_loop, run_with_retry}

module _ {S : Type 0} (compact : S → S × Option Bytes) where
  -- The state on which the attempt with this number is made.
  abbrev pub state_at : ℕ → S → S
  state_at zero s = s
  state_at (suc n) s = state_at n (compact s).0

  -- The attempts up to this number end in errors.
  abbrev pub AllFail : ℕ → S → Type 0
  AllFail n s = (j : ℕ) → j < n → (compact (state_at j s)).1 ≢ none

  AllFail-suc : (n : ℕ) (s : S) → (compact s).1 ≢ none → AllFail n (compact s).0 → AllFail (suc n) s
  AllFail-suc n s first later zero h = first
  AllFail-suc n s first later (suc j) h = later j (omega (arith, h))

module _ {S : Type 0} (compact : S → S × Option Bytes) (clock : ℕ → Time) (stopped : ℕ → Bool)
    (goes_on : (n : ℕ) → stopped n ≡ false) where
  not_stopped : (b : Bool) (n : ℕ) → (b && stopped n) ≡ false
  not_stopped true n = goes_on n
  not_stopped false n = refl

  -- The first attempt that succeeds, or as many further errors as attempts.
  abbrev Ended : ℕ → ℕ → S → CompactionMonitor → CompactionMonitor → Type 0
  Ended left attempt s cm cm' =
      ((n : ℕ) × (n < left)
        × AllFail compact n s
        × ((compact (state_at compact n s)).1 ≡ none)
        × (cm'.consecutive_errors ≡ 0)
        × (cm'.last_success ≡ clock (attempt + n)))
      ⊎ AllFail compact left s × (cm'.consecutive_errors ≡ cm.consecutive_errors + left)

  retry_loop-Ended :
      (left attempt : ℕ) (s : S) (cm : CompactionMonitor)
      → Ended left attempt s cm (retry_loop compact clock stopped left attempt s cm).1
  unfolding retry_loop record_success record_failure
  retry_loop-Ended zero attempt s cm = inr ((λ j h. elim h [ ]), omega arith)
  retry_loop-Ended (suc left) attempt s cm = elim (Option-cases (compact s).1) [
    | inl fine ↦
        rw (not_stopped (ltb 0 attempt) attempt, fine)
          (inl (0, omega arith, (λ j h. elim h [ ]), fine, refl, ap clock (omega arith)))
    | inr (text, failed) ↦
        rw (not_stopped (ltb 0 attempt) attempt, failed)
          (elim (retry_loop-Ended left (suc attempt) (compact s).0
            (record_failure (clock attempt) text cm)) [
              | inl (n, early, before, done, none_left, time) ↦ inl (
                suc n,
                omega (arith, early),
                AllFail-suc compact n s (λ e. absurd (cc (e, failed))) before,
                done,
                none_left,
                time ∙ ap clock (omega arith),
              )
              | inr (all, more) ↦ inr (
                AllFail-suc compact left s (λ e. absurd (cc (e, failed))) all,
                omega (arith, more),
              )
            ])
  ]

  too_many :
      (now : Time) (cm : CompactionMonitor) → 3 < cm.consecutive_errors → is_healthy now cm ≡ false
  unfolding is_healthy
  too_many now cm h = ground (arith, h)

  -- A run of the compaction that is not stopped makes at most four attempts. Either one is the first
  -- to succeed: then the monitor has its time and counts no errors. Or all fail: then the monitor that the run
  -- leaves is unhealthy at any time, whatever it said before.
  pub run_with_retry-is_healthy :
      (s : S) (cm : CompactionMonitor)
      → ((n : ℕ) × (n < 4)
          × AllFail compact n s
          × ((compact (state_at compact n s)).1 ≡ none)
          × ((run_with_retry compact clock stopped s cm).1.consecutive_errors ≡ 0)
          × ((run_with_retry compact clock stopped s cm).1.last_success ≡ clock n))
        ⊎ AllFail compact 4 s
          × ((now : Time) → is_healthy now (run_with_retry compact clock stopped s cm).1 ≡ false)
  unfolding run_with_retry
  run_with_retry-is_healthy s cm = elim (retry_loop-Ended 4 0 s cm) [
    | inl (n, few, before, done, none_left, time) ↦
        inl (n, few, before, done, none_left, time ∙ ap clock (omega arith))
    | inr (all, errors) ↦ inr (all, λ now. too_many now _ (omega (arith, errors)))
  ]
