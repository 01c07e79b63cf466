-- ===== src/Server/Tasks/Broadcasting.antt =====
-- pkg/server/tasks.go, a tick of `BroadcastMetrics`, on the hub of pkg/ingest/websocket.go. `message`
-- is `json.Marshal` of the update; one reading of the clock stands for those of a tick.
use tinyobs.Base.{
  ◌-◌, ◌*◌, List, [], ◌∷◌, Option, none, some, Bytes, not, if◌then◌else◌, if_elim, Option-cases,
  inl, inr,
}
use tinyobs.Ingest.Websocket.{MetricsHub, sends, Steps, stay, then_step, send, has_clients}
use tinyobs.Metric.{Metric, Time, minute}
use tinyobs.Server.Tasks.{ErrorState, on_error, on_success}
use tinyobs.Storage.{StorageOps, QueryRequest}

abbrev pub recent_request : Time → QueryRequest
recent_request now = record {
  start = now - 1 * minute;
  end = now;
  metric_names = [];
  labels = [];
  limit = 1000;
}

module _ {V S : Type 0} (ops : StorageOps V S)
    (message : Time → List (Metric V) → Option Bytes) where
  -- `Broadcast` of the update, if there are metrics.
  unfoldable pub broadcast_results : Time → List (Metric V) → MetricsHub → MetricsHub
  broadcast_results now [] h = h
  broadcast_results now (m ∷ ms) h = elim (message now (m ∷ ms)) [
    | none ↦ h
    | some text ↦ send text h
  ]

  unfoldable pub broadcast_tick : Time → S → MetricsHub → ErrorState → MetricsHub × ErrorState
  broadcast_tick now s h e =
      if not (has_clients h) then (h, e) else elim (ops.query s (recent_request now)) [
        | none ↦ (h, (on_error now e).0)
        | some results ↦ (broadcast_results now results h, on_success e)
      ]

  Steps-broadcast_results :
      (now : Time) (ms : List (Metric V)) (h : MetricsHub) → Steps h (broadcast_results now ms h)
  unfolding broadcast_results
  Steps-broadcast_results now [] h = stay
  Steps-broadcast_results now (m ∷ ms) h = elim (Option-cases (message now (m ∷ ms))) [
    | inl failed ↦ rw (broadcast_results, failed) stay
    | inr (text, made) ↦ rw (broadcast_results, made) (then_step stay (sends h text))
  ]

  -- A tick does to the hub what some steps of its relation do, so what is shown of them holds with
  -- the broadcaster running.
  pub Steps-broadcast_tick :
      (now : Time) (s : S) (h : MetricsHub) (e : ErrorState) → Steps h (broadcast_tick now s h e).0
  unfolding broadcast_tick
  Steps-broadcast_tick now s h e =
      if_elim (λ (r : MetricsHub × ErrorState). Steps h r.0) (not (has_clients h)) (λ _. stay)
        (λ _. elim (Option-cases (ops.query s (recent_request now))) [
          | inl failed ↦ rw failed stay
          | inr (ms, found) ↦ rw found (Steps-broadcast_results now ms h)
        ])
