-- ===== src/Ingest/Websocket.antt =====
-- pkg/ingest/websocket.go. The hub's state is its map and channels and where `Run` stands; a
-- connection is a number. Each rule is what one goroutine does between two points where others may
-- run; a send to a full channel waits, so it has no rule.
pub mod Blocking
use tinyobs.Base.{
  ℕ, ◌≡◌, ◌<◌, ◌==◌, not, Bool, true, false, List, [], ◌∷◌, ◌++◌, any, filter, ltb, length,
  if◌then◌else◌, Bytes,
}

-- `config.WSChannelBuffer` and `config.WSBroadcastBuffer`
abbrev pub ws_channel_buffer : ℕ
ws_channel_buffer = 10

abbrev pub ws_broadcast_buffer : ℕ
ws_broadcast_buffer = 256

-- Where the goroutine of `Run` stands: at its select, in the loop that unregisters the failed
-- connections that are left, or behind its return.
pub data Position : Type 0 where
  selecting : Position
  unregistering : List ℕ → Position
  returned : Position

pub record MetricsHub : Type 0 where
  pub clients : List ℕ
  pub register : List ℕ
  pub unregister : List ℕ
  pub broadcast : List Bytes
  pub position : Position

abbrev pub new_metrics_hub : MetricsHub
new_metrics_hub = record {
  clients = [];
  register = [];
  unregister = [];
  broadcast = [];
  position = selecting;
}

-- `h.clients[conn] = true`
unfoldable pub add_client : ℕ → List ℕ → List ℕ
add_client c cs = if any (λ d. d == c) cs then cs else c ∷ cs

-- `delete(h.clients, conn)`
unfoldable pub remove_client : ℕ → List ℕ → List ℕ
remove_client c cs = filter (λ d. not (d == c)) cs

-- `Broadcast`: a full channel drops the message.
unfoldable pub send : Bytes → MetricsHub → MetricsHub
send message h =
    if ltb (length h.broadcast) ws_broadcast_buffer
    then record h { broadcast = h.broadcast ++ message ∷ [] }
    else h

unfoldable pub has_clients : MetricsHub → Bool
has_clients h = ltb 0 (length h.clients)

pub data Step : MetricsHub → MetricsHub → Type 0 where
  -- `hub.register <- conn` and `hub.unregister <- conn` in `HandleWebSocket`
  joins :
      (h : MetricsHub) (c : ℕ)
      → length h.register < ws_channel_buffer
      → Step h (record h { register = h.register ++ c ∷ [] })
  leaves :
      (h : MetricsHub) (c : ℕ)
      → length h.unregister < ws_channel_buffer
      → Step h (record h { unregister = h.unregister ++ c ∷ [] })
  sends : (h : MetricsHub) (message : Bytes) → Step h (send message h)
  -- the cases of the select in `Run`
  registers :
      (h : MetricsHub) (c : ℕ) (rest : List ℕ)
      → h.position ≡ selecting
      → h.register ≡ c ∷ rest
      → Step h (record h { register = rest; clients = add_client c h.clients })
  unregisters :
      (h : MetricsHub) (c : ℕ) (rest : List ℕ)
      → h.position ≡ selecting
      → h.unregister ≡ c ∷ rest
      → Step h (record h { unregister = rest; clients = remove_client c h.clients })
  -- `fails` tells the connections whose write fails
  broadcasts :
      (h : MetricsHub) (message : Bytes) (rest : List Bytes) (fails : ℕ → Bool)
      → h.position ≡ selecting
      → h.broadcast ≡ message ∷ rest
      → Step h (record h { broadcast = rest; position = unregistering (filter fails h.clients) })
  -- the loop `for _, conn := range failed`, and its end
  gives_up :
      (h : MetricsHub) (c : ℕ) (rest : List ℕ)
      → h.position ≡ unregistering (c ∷ rest)
      → length h.unregister < ws_channel_buffer
      → Step h (record h { unregister = h.unregister ++ c ∷ []; position = unregistering rest })
  resumes :
      (h : MetricsHub) → h.position ≡ unregistering [] → Step h (record h { position = selecting })
  -- `<-ctx.Done()`
  returns : (h : MetricsHub) → h.position ≡ selecting → Step h (record h { position = returned })

pub data Steps : MetricsHub → MetricsHub → Type 0 where
  stay : {h : MetricsHub} → Steps h h
  then_step : {g h k : MetricsHub} → Steps g h → Step h k → Steps g k
