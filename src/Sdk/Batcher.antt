-- ===== src/Sdk/Batcher.antt =====
-- pkg/sdk/batch/batch.go. The state is the shared memory and the goroutines: each rule is what one
-- of them does between two points where others may run. `M` is a metric.
pub mod Conservation
pub mod Flushing
use tinyobs.Base.{
  ℕ, zero, suc, ◌≡◌, ◌≢◌, Bool, true, false, List, [], ◌∷◌, ◌++◌, leb, length, if◌then◌else◌,
}

pub record Batcher (M : Type 0) : Type 0 where
  pub metrics : List M
  pub flushing : Bool
  pub cancelled : Bool
  -- goroutines: about to compare and swap, about to flush, and about to reset the flag
  pub deciding : ℕ
  pub flushers : ℕ
  pub resetting : ℕ
  -- the batches given to `sendMetrics` that has not returned
  pub sending : List (List M)
  -- the metrics of the sends that returned nil, and of those that returned an error
  pub delivered : List M
  pub failed : List M
  -- all metrics that were added
  pub added : List M

module _ {M : Type 0} where
  abbrev pub new : Batcher M
  new = record {
    metrics = [];
    flushing = false;
    cancelled = false;
    deciding = 0;
    flushers = 0;
    resetting = 0;
    sending = [];
    delivered = [];
    failed = [];
    added = [];
  }

  -- `Add` up to the unlock; where the batch is full, the goroutine goes on to the flag.
  unfoldable pub add : ℕ → M → Batcher M → Batcher M
  add max_batch_size m b =
      let metrics = b.metrics ++ m ∷ [] in
      record b {
        metrics = metrics;
        added = b.added ++ m ∷ [];
        deciding = if leb max_batch_size (length metrics) then suc b.deciding else b.deciding;
      }

  -- `flush` and `Flush`: the batch is copied and cut to length 0, and goes to `sendMetrics`.
  unfoldable pub flush : Batcher M → Batcher M
  flush b =
      if leb 1 (length b.metrics)
      then record b { metrics = []; sending = b.metrics ∷ b.sending }
      else b

  -- `flushing.CompareAndSwap(false, true)`, and the goroutine that it starts.
  unfoldable pub compare_and_swap : Batcher M → Batcher M
  compare_and_swap b =
      if b.flushing then b else record b { flushing = true; flushers = suc b.flushers }

  -- One of the batches that are being sent, and the others.
  pub data Takes : List M → List (List M) → List (List M) → Type 0 where
    here : {batch : List M} {rest : List (List M)} → Takes batch (batch ∷ rest) rest
    there :
        {batch other : List M} {all rest : List (List M)}
        → Takes batch all rest
        → Takes batch (other ∷ all) (other ∷ rest)

  pub data Step (max_batch_size : ℕ) : Batcher M → Batcher M → Type 0 where
    -- `Add`
    added : (m : M) (b : Batcher M) → Step max_batch_size b (add max_batch_size m b)
    decided :
        (b : Batcher M) (n : ℕ)
        → b.deciding ≡ suc n
        → Step max_batch_size b (compare_and_swap (record b { deciding = n }))
    -- a tick of `flushLoop`, which its select may take also when the context is cancelled
    ticked : (b : Batcher M) → Step max_batch_size b (compare_and_swap b)
    -- `flush`, and the reset of the flag behind it
    flushed :
        (b : Batcher M) (n : ℕ)
        → b.flushers ≡ suc n
        → Step max_batch_size b (flush (record b { flushers = n; resetting = suc b.resetting }))
    reset :
        (b : Batcher M) (n : ℕ)
        → b.resetting ≡ suc n
        → Step max_batch_size b (record b { resetting = n; flushing = false })
    -- `Flush`, also as the end of `Stop`
    flushed_now : (b : Batcher M) → Step max_batch_size b (flush b)
    -- the return of `sendMetrics`, which is the Transport's: nil or an error, whether the context
    -- that it is given is cancelled or not
    sent :
        (b : Batcher M) {batch : List M} {rest : List (List M)}
        → Takes batch b.sending rest
        → Step max_batch_size b (record b { sending = rest; delivered = batch ++ b.delivered })
    refused :
        (b : Batcher M) {batch : List M} {rest : List (List M)}
        → Takes batch b.sending rest
        → Step max_batch_size b (record b { sending = rest; failed = batch ++ b.failed })
    -- the cancellation in `Stop`, or of the context given to `Start`
    stopped : (b : Batcher M) → Step max_batch_size b (record b { cancelled = true })

  pub data Steps (max_batch_size : ℕ) : Batcher M → Batcher M → Type 0 where
    stay : {b : Batcher M} → Steps max_batch_size b b
    then_step :
        {b c d : Batcher M}
        → Steps max_batch_size b c
        → Step max_batch_size c d
        → Steps max_batch_size b d

module _ {M : Type 0} where
  -- Steps that follow others.
  pub follow :
      {max_batch_size : ℕ} {b c d : Batcher M}
      → Steps max_batch_size b c
      → Steps max_batch_size c d
      → Steps max_batch_size b d
  follow r stay = r
  follow r (then_step q s) = then_step (follow r q) s
