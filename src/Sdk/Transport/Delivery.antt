-- ===== src/Sdk/Transport/Delivery.antt =====
-- pkg/sdk/transport/transport.go against pkg/ingest/handler.go: what `Send` answers, and what is
-- stored.
use tinyobs.Base.{
  ℕ, ◌≤◌, ◌≡◌, refl, ◌⊎◌, inl, inr, Bool, true, false, List, ◌∷◌, ◌++◌, All, Option, some, Bytes,
  codes, str_eq, map, Option-cases, Bool-cases, arith,
}
use tinyobs.Ingest.Cardinality.{CardinalityTracker}
use tinyobs.Ingest.Handler.Atomic.{handle_ingest_atomic, handle_ingest-status}
use tinyobs.Ingest.Handler.{Usage, stamp, handle_ingest}
use tinyobs.Metric.{Metric, Time, json_form}
use tinyobs.Sdk.Transport.{HttpTransport, HttpRequest, make_request, is_success, send}
use tinyobs.Storage.Memory.{Storage, memory_ops}

no_success : (status : ℕ) → 400 ≤ status → is_success (some status) ≡ false
unfolding is_success
no_success status h = ground (arith, h)

module _ {V B : Type 0} (marshal : List (Metric V) → Option B)
    (decode : B → Option (List (Metric V))) (is_url : Bytes → Bool) (clock : ℕ → Time) (u : Usage)
    (now : Time) where
  -- The server at the other side: its handler, on its tracker and its storage.
  abbrev pub ingest_server :
      HttpRequest B → CardinalityTracker × Storage V → (CardinalityTracker × Storage V) × Option ℕ
  ingest_server req (c, s) =
      let (status, c', s') =
        handle_ingest memory_ops clock (str_eq req.method (codes "POST")) (decode req.body) u now c
          s in
      ((c', s'), some status)

  -- Success, and the metrics are stored; or an error, and nothing is.
  abbrev pub Delivered :
      List (Metric V) → Storage V → (CardinalityTracker × Storage V) × Bool → Type 0
  Delivered ms s r =
      (r.1 ≡ true) × (r.0.1.metrics ≡ s.metrics ++ map (stamp now) (map json_form ms))
      ⊎ (r.1 ≡ false) × (r.0.1 ≡ s)

  answered :
      (ms : List (Metric V)) (body : B) (t : HttpTransport) (c : CardinalityTracker) (s : Storage V)
      → decode body ≡ some (map json_form ms)
      → (let (w, status) = ingest_server (make_request t body) (c, s) in
          Delivered ms s (w, is_success status))
  unfolding make_request is_success str_eq
  answered ms body t c s back =
      let got = map json_form ms in
      rw back (elim (handle_ingest_atomic clock true got u now c s) [
        | inl (fine, _, _, stored) ↦ inl (rw fine refl, stored)
        | inr (failed, same) ↦ inr (
          elim (handle_ingest-status clock true (some got) u now c s) [
            | inl fine ↦ absurd (failed fine)
            | inr bad ↦ no_success _ bad
          ],
          same,
        )
      ])

  -- `Send` tells the truth: behind a server that stores in memory and
  -- whose answer arrives, it answers nil exactly if the
  -- server has stored all the metrics of the batch, in their order behind those stored before, with
  -- the time of the request where they had none; and otherwise the server has stored none of them.
  -- The texts of the metrics are valid UTF-8, which JSON keeps.
  pub send-Delivered :
      (IsText : Metric V → Type 0)
      (law : (ms : List (Metric V)) (body : B)
        → All IsText ms
        → marshal ms ≡ some body
        → decode body ≡ some (map json_form ms))
      (t : HttpTransport) (m : Metric V) (ms : List (Metric V)) (c : CardinalityTracker)
      (s : Storage V)
      → All IsText (m ∷ ms)
      → Delivered (m ∷ ms) s (send marshal is_url ingest_server t (m ∷ ms) (c, s))
  unfolding send
  send-Delivered IsText law t m ms c s text = elim (Option-cases (marshal (m ∷ ms))) [
    | inl failed ↦ rw (send, failed) (inr (refl, refl))
    | inr (body, done) ↦ elim (Bool-cases (is_url t.endpoint)) [
      | inl good ↦
          rw (send, done, good) (answered (m ∷ ms) body t c s (law (m ∷ ms) body text done))
      | inr bad ↦ rw (send, done, bad) (inr (refl, refl))
    ]
  ]
