-- ===== src/Sdk/Transport.antt =====
-- pkg/sdk/transport/transport.go. `marshal` is `json.Marshal` of the payload, `is_url` whether
-- `http.NewRequestWithContext` accepts the endpoint; `exchange` is the HTTP client's `Do`, on the state
-- `W` of the other side, with the status of the response, or `none` where it fails.
pub mod Delivery
use tinyobs.Base.{
  ℕ, not, ◌||◌, ◌==◌, Bool, true, false, List, [], ◌∷◌, ◌++◌, Option, none, some, Bytes, codes,
  length, ltb, leb, if◌then◌else◌,
}
use tinyobs.Metric.{Metric}

pub record HttpTransport : Type 0 where
  pub endpoint : Bytes
  pub api_key : Bytes

-- `B` is the type of bodies.
pub record HttpRequest (B : Type 0) : Type 0 where
  pub method : Bytes
  pub url : Bytes
  pub content_type : Bytes
  pub authorization : Option Bytes
  pub body : B

abbrev pub new_http : Bytes → Bytes → HttpTransport
new_http endpoint api_key = record { endpoint = endpoint; api_key = api_key }

unfoldable pub make_request : {B : Type 0} → HttpTransport → B → HttpRequest B
make_request t body = record {
  method = codes "POST";
  url = t.endpoint;
  content_type = codes "application/json";
  authorization = if length t.api_key == 0 then none else some (codes "Bearer " ++ t.api_key);
  body = body;
}

-- `err == nil` for a response.
unfoldable pub is_success : Option ℕ → Bool
is_success none = false
is_success (some status) = not (ltb status 200 || leb 300 status)

module _ {V B W : Type 0} (marshal : List (Metric V) → Option B) (is_url : Bytes → Bool)
    (exchange : HttpRequest B → W → W × Option ℕ) where
  unfoldable pub send : HttpTransport → List (Metric V) → W → W × Bool
  send t [] w = (w, true)
  send t (m ∷ ms) w = elim (marshal (m ∷ ms)) [
    | none ↦ (w, false)
    | some body ↦
        let (w', status) = exchange (make_request t body) w in
        if is_url t.endpoint then (w', is_success status) else (w, false)
  ]
