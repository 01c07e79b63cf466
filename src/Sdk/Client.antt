-- ===== src/Sdk/Client.antt =====
-- pkg/sdk/client.go. A collector is the entry of its name in the client; the HTTP transport, the
-- timers are left out.
use tinyobs.Base.{
  ℕ, ◌*◌, ◌==◌, Bool, true, false, Bytes, codes, Dict, List, [], ◌∷◌, ◌++◌, Option, none, some,
  insert, lookup, length, if◌then◌else◌,
}
use tinyobs.Float.{FloatOps}
use tinyobs.Metric.{Metric, read_labels, second}
use tinyobs.Sdk.Collectors.{Counter, Gauge, new_counter, new_gauge}
use tinyobs.Query.Outcome.{Outcome, ok, ◌>>=◌}
use tinyobs.Sdk.Histogram.{Histogram, new_histogram, flush}

pub record ClientConfig : Type 0 where
  pub service : Bytes
  pub api_key : Bytes
  pub endpoint : Bytes
  pub flush_every : ℕ

pub record Client (V : Type 0) : Type 0 where
  pub config : ClientConfig
  pub counters : Dict (Counter V)
  pub gauges : Dict (Gauge V)
  pub histograms : Dict (Histogram V)
  pub started : Bool

-- The defaults of `New`.
unfoldable pub with_defaults : ClientConfig → ClientConfig
with_defaults cfg = record cfg {
  endpoint =
      if length cfg.endpoint == 0 then codes "http://localhost:8080/v1/ingest" else cfg.endpoint;
  flush_every = if cfg.flush_every == 0 then 5 * second else cfg.flush_every;
}

module _ {V : Type 0} ⦃F : FloatOps V⦄ where
  -- `none` where the service has no name; `NewHTTP` is taken to succeed.
  unfoldable pub new : ClientConfig → Option (Client V)
  new cfg =
      if length cfg.service == 0
      then none
      else some (record {
        config = with_defaults cfg;
        counters = [];
        gauges = [];
        histograms = [];
        started = false;
      })

  unfoldable pub counter : Bytes → Client V → Client V × Counter V
  counter name c = elim (lookup name c.counters) [
    | some old ↦ (c, old)
    | none ↦ (record c { counters = insert name (new_counter name) c.counters }, new_counter name)
  ]

  unfoldable pub gauge : Bytes → Client V → Client V × Gauge V
  gauge name c = elim (lookup name c.gauges) [
    | some old ↦ (c, old)
    | none ↦ (record c { gauges = insert name (new_gauge name) c.gauges }, new_gauge name)
  ]

  unfoldable pub histogram : Bytes → Client V → Client V × Histogram V
  histogram name c = elim (lookup name c.histograms) [
    | some old ↦ (c, old)
    | none ↦ (
      record c { histograms = insert name (new_histogram name) c.histograms },
      new_histogram name,
    )
  ]

  -- The answer is `err == nil`; the start of the batcher does not fail.
  unfoldable pub start : Client V → Client V × Bool
  start c = if c.started then (c, false) else (record c { started = true }, true)

  -- `flushed` is whether `batcher.Flush` answers nil.
  unfoldable pub stop : Bool → Client V → Client V × Bool
  stop flushed c =
      if c.started
      then (if flushed then (record c { started = false }, true) else (c, false))
      else (c, true)

  -- What `SendMetric` hands to the batcher.
  unfoldable pub send_metric : Client V → Metric V → Option (Metric V)
  send_metric c m =
      if c.started
      then some (record m {
        label_map = some (insert (codes "service") c.config.service (read_labels m.label_map));
      })
      else none

  -- The metrics that reach the batcher.
  unfoldable pub send_all : Client V → List (Metric V) → List (Metric V)
  send_all c [] = []
  send_all c (m ∷ ms) =
      let rest = send_all c ms in elim (send_metric c m) [ some sent ↦ sent ∷ rest | none ↦ rest ]

  module _ (format3 : V → Bytes) where
    -- A tick of `flushHistograms`: the histograms afterwards, and what they send.
    unfoldable pub flush_loop : Dict (Histogram V) → Outcome (Dict (Histogram V) × List (Metric V))
    flush_loop [] = ok ([], [])
    flush_loop ((name, h) ∷ hs) =
        let rest = flush_loop hs in
        flush format3 h >>= λ r. rest >>= λ s. ok ((name, r.0) ∷ s.0, r.1 ++ s.1)

    unfoldable pub flush_histograms : Client V → Outcome (Client V × List (Metric V))
    flush_histograms c =
        flush_loop c.histograms >>= λ r. ok (record c { histograms = r.0 }, send_all c r.1)
