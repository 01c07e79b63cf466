-- ===== src/Httpx.antt =====
-- pkg/httpx/response.go. The encoder is a parameter: it gives the bytes of a body, or `none` where it
-- fails, which is only logged. `status_text` is `http.StatusText`; what an encoder has written before
-- it fails is left out.
use tinyobs.Base.{ℕ, [], Option, none, some, Bytes}

-- What a client gets.
pub record HttpReply : Type 0 where
  pub status : ℕ
  pub body : Bytes

pub record ErrorResponse : Type 0 where
  pub error : Bytes
  pub message : Bytes

unfoldable pub respond_json : {D : Type 0} → (D → Option Bytes) → ℕ → D → HttpReply
respond_json encode status content = record {
  status = status;
  body = elim (encode content) [ none ↦ [] | some bytes ↦ bytes ];
}

module _ (encode : ErrorResponse → Option Bytes) (status_text : ℕ → Bytes) where
  unfoldable pub respond_error_string : ℕ → Bytes → HttpReply
  respond_error_string status message =
      respond_json encode status (record { error = status_text status; message = message })

  -- An error is its text.
  unfoldable pub respond_error : ℕ → Bytes → HttpReply
  respond_error status err =
      respond_json encode status (record { error = status_text status; message = err })
