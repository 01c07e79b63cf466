-- ===== src/Ingest/Websocket/Blocking.antt =====
-- pkg/ingest/websocket.go: `Run` as a sender on its own channel.
use mathlib.Core.Path.{subst}
use tinyobs.Base.{
  Bool-cases, inl, inr, ltb→lt, ltb_false→le, ℕ, zero, suc, ◌+◌, ◌≡◌, ◌≤◌, ◌<◌, ◌==◌, refl, sym, ap,
  ◌∙◌, Bool, true, false, List, [], ◌∷◌, ◌++◌, any, filter, length, length-append, ltb,
  if◌then◌else◌, if_elim, arith, Bytes,
}
use tinyobs.Ingest.Websocket.{
  MetricsHub, new_metrics_hub, Position, selecting, unregistering, returned, ws_channel_buffer,
  add_client, send, Step, Steps, stay, then_step,
}

-- `Run` waits to send a connection to the channel `unregister`, which is full.
pub record IsBlocked (c : ℕ) (rest cs : List ℕ) (h : MetricsHub) : Type 0 where
  pub waits : h.position ≡ unregistering (c ∷ rest)
  pub full : ws_channel_buffer ≤ length h.unregister
  pub same : h.clients ≡ cs

-- The tag of a position.
abbrev at_select : Position → Bool
at_select selecting = true
at_select (unregistering cs) = false
at_select returned = false

abbrev left_over : Position → ℕ
left_over selecting = 0
left_over (unregistering cs) = length cs
left_over returned = 0

selects_not :
    {c : ℕ} {rest cs : List ℕ} {h : MetricsHub} {A : Type 0}
    → IsBlocked c rest cs h
    → h.position ≡ selecting
    → A
selects_not b e = let clash : true ≡ false = ap at_select (sym e ∙ b.waits) in absurd (cc)

send-IsBlocked :
    {c : ℕ} {rest cs : List ℕ} (message : Bytes) (h : MetricsHub)
    → IsBlocked c rest cs h
    → IsBlocked c rest cs (send message h)
unfolding send
send-IsBlocked {c = c} {rest = rest} {cs = cs} message h b =
    if_elim (IsBlocked c rest cs) (ltb (length h.broadcast) 256)
      (λ _. record { waits = b.waits; full = b.full; same = b.same }) (λ _. b)

Step-IsBlocked :
    {c : ℕ} {rest cs : List ℕ} {h k : MetricsHub}
    → Step h k
    → IsBlocked c rest cs h
    → IsBlocked c rest cs k
Step-IsBlocked (Step.joins h d room) b = record { waits = b.waits; full = b.full; same = b.same }
Step-IsBlocked (Step.leaves h d room) b = absurd (omega (arith, room, b.full))
Step-IsBlocked (Step.sends h message) b = send-IsBlocked message h b
Step-IsBlocked (Step.registers h d ds e r) b = selects_not b e
Step-IsBlocked (Step.unregisters h d ds e r) b = selects_not b e
Step-IsBlocked (Step.broadcasts h message ms fails e r) b = selects_not b e
Step-IsBlocked (Step.gives_up h d ds e room) b = absurd (omega (arith, room, b.full))
Step-IsBlocked (Step.resumes h e) b =
    let clash : 0 ≡ suc _ = ap left_over (sym e ∙ b.waits) in absurd (omega (arith, clash))
Step-IsBlocked (Step.returns h e) b = selects_not b e

-- Where `Run` waits to send to its own full channel, it waits for ever: no step of any goroutine
-- lets it go on or changes the set of clients, so no message is sent any more, no client joins or
-- leaves, and the end of the context is not seen.
pub Steps-IsBlocked :
    {c : ℕ} {rest cs : List ℕ} {h k : MetricsHub}
    → Steps h k
    → IsBlocked c rest cs h
    → IsBlocked c rest cs k
Steps-IsBlocked stay b = b
Steps-IsBlocked (then_step r s) b = Step-IsBlocked s (Steps-IsBlocked r b)

-- `n` different connections.
abbrev pub connections : ℕ → List ℕ
connections zero = []
connections (suc n) = n ∷ connections n

fresh : (m n : ℕ) → n ≤ m → any (λ d. d == m) (connections n) ≡ false
fresh m zero h = refl
fresh m (suc n) h = ground (arith, h, fresh m n (omega (arith, h)))

length-connections : (n : ℕ) → length (connections n) ≡ n
length-connections zero = refl
length-connections (suc n) = ap suc (length-connections n)

filter_all : (cs : List ℕ) → filter (λ _. true) cs ≡ cs
filter_all [] = refl
filter_all (c ∷ cs) = ap (◌∷◌ c) (filter_all cs)

follow : {g h k : MetricsHub} → Steps g h → Steps h k → Steps g k
follow r stay = r
follow r (then_step q s) = then_step (follow r q) s

abbrev idle : List ℕ → MetricsHub
idle cs = record new_metrics_hub { clients = cs }

abbrev failing : List ℕ → List ℕ → List ℕ → MetricsHub
failing cs us ds = record new_metrics_hub {
  clients = cs;
  unregister = us;
  position = unregistering ds;
}

connect : (n : ℕ) → Steps new_metrics_hub (idle (connections n))
unfolding add_client
connect zero = stay
connect (suc n) = follow (connect n) (
    subst
      (λ b. Steps (idle (connections n)) (idle (if b then connections n else n ∷ connections n)))
      (fresh n n (omega arith))
      (then_step (then_step stay (Step.joins _ n (omega arith))) (Step.registers _ n [] refl refl)))

-- A broadcast whose writes all fail.
fail_all : (cs : List ℕ) → Steps (idle cs) (failing cs [] cs)
unfolding send
fail_all cs =
    subst (λ ds. Steps (idle cs) (failing cs [] ds)) (filter_all cs)
      (then_step (then_step stay (Step.sends _ [])) (Step.broadcasts _ [] [] (λ _. true) refl refl))

-- `Run` fills its own channel.
fill :
    (cs us ds : List ℕ)
    → ws_channel_buffer < length us + length ds
    → length us ≤ ws_channel_buffer
    → (c : ℕ) × (rest : List ℕ) × (vs : List ℕ) × Steps
        (failing cs us ds)
        (failing cs vs (c ∷ rest))
      × (ws_channel_buffer ≤ length vs)
fill cs us [] many fits = absurd (omega (arith, many, fits))
fill cs us (d ∷ ds) many fits = elim (Bool-cases (ltb (length us) ws_channel_buffer)) [
  | inr full ↦ (d, ds, us, stay, ltb_false→le _ _ full)
  | inl room ↦
      let longer : length (us ++ d ∷ []) ≡ suc (length us) =
        length-append us (d ∷ []) ∙ omega arith in
      let (c, rest, vs, steps, full) =
        fill cs (us ++ d ∷ []) ds (omega (arith, many, longer))
          (omega (arith, longer, ltb→lt _ _ room)) in
      (
        c,
        rest,
        vs,
        follow (then_step stay (Step.gives_up (failing cs us (d ∷ ds)) d ds refl (ltb→lt _ _ room)))
            steps,
        full,
      )
]

-- With more than ten clients the hub can come to wait for itself: from a new hub, some steps lead
-- to a state with all of them as clients in which `Run`, the only reader of the channel
-- `unregister`, waits to send to that channel, which is full.
pub hub_blocks :
    (n : ℕ)
    → ws_channel_buffer < n
    → (h : MetricsHub) × (c : ℕ) × (rest : List ℕ) × Steps new_metrics_hub h
      × IsBlocked c rest (connections n) h
hub_blocks n many =
    let (c, rest, vs, steps, full) =
      fill (connections n) [] (connections n) (omega (arith, many, length-connections n))
        (omega arith) in
    (
      failing (connections n) vs (c ∷ rest),
      c,
      rest,
      follow (follow (connect n) (fail_all (connections n))) steps,
      record { waits = refl; full = full; same = refl },
    )
