-- ===== src/Errors.antt =====
-- app/core/errors.py: the application errors, and the responses that the exception handlers of
-- FastAPI send for them.
pub mod Laws
mod Examples
use demumumind_panel.Shared.{ℕ, String, Bool, true, false, Option, none, some, if◌then◌else◌}
use demumumind_panel.Text.{nonempty, or_text}

pub record AppError : Type 0 where
  pub status_code : ℕ
  pub code : String
  pub message : String
  pub detail : Option String
  pub request_id : Option String

unfoldable pub auth_error : String → Option String → Option String → AppError
auth_error message detail rid = record {
  status_code = 401;
  code = "unauthorized";
  message = message;
  detail = detail;
  request_id = rid;
}

unfoldable pub not_found_error : String → Option String → Option String → AppError
not_found_error message detail rid = record {
  status_code = 404;
  code = "not_found";
  message = message;
  detail = detail;
  request_id = rid;
}

unfoldable pub budget_error : String → Option String → Option String → AppError
budget_error message detail rid = record {
  status_code = 402;
  code = "budget_exceeded";
  message = message;
  detail = detail;
  request_id = rid;
}

unfoldable pub upstream_error : ℕ → String → Option String → Option String → AppError
upstream_error status message detail rid = record {
  status_code = status;
  code = "upstream_error";
  message = message;
  detail = detail;
  request_id = rid;
}

-- What a call may raise: the application's errors, those of FastAPI and Starlette, and the rest by
-- class and text.
pub data Exception : Type 0 where
  app : AppError → Exception
  -- `str(exc.errors()[:5])`
  validation : String → Exception
  -- the status and `str(exc.detail)`
  http : ℕ → String → Exception
  other : String → String → Exception

pub data Result {ℓ} (A : Type ℓ) : Type ℓ where
  ok : A → Result A
  raise : Exception → Result A

infixl 5 ◌>>=◌ ◌>>◌
abbrev pub ◌>>=◌ {ℓ κ} : {A : Type ℓ} {B : Type κ} → Result A → (A → Result B) → Result B
ok a >>= f = f a
raise e >>= f = raise e

abbrev pub ◌>>◌ {ℓ} : {B : Type ℓ} → Result (Unit {0}) → Result B → Result B
m >> k = m >>= λ _. k

pub record ErrorReply : Type 0 where
  pub http_status : ℕ
  pub error : String
  pub detail : String
  pub request_id : Option String
  pub status_code : ℕ
  -- the value of X-Request-ID, if the header is sent
  pub header : Option String

-- `a or b` on optional texts
or_option : Option String → Option String → Option String
or_option none b = b
or_option (some s) b = if nonempty s then some s else b

-- `{"X-Request-ID": rid} if rid else None`
header_of : Option String → Option String
header_of none = none
header_of (some s) = if nonempty s then some s else none

-- `exc.detail or exc.message`
detail_or : Option String → String → String
detail_or none message = message
detail_or (some d) message = or_text d message

reply : ℕ → String → String → Option String → ErrorReply
reply status error detail rid = record {
  http_status = status;
  error = error;
  detail = detail;
  request_id = rid;
  status_code = status;
  header = header_of rid;
}

-- The handlers of `register_error_handlers`, by the exception; `rid` is `request.state.request_id`.
pub handle : Option String → Exception → ErrorReply
unfolding reply header_of or_option detail_or or_text
handle rid (app e) =
    reply e.status_code e.code (detail_or e.detail e.message) (or_option e.request_id rid)
handle rid (validation errors) = reply 422 "validation_error" errors rid
handle rid (http status detail) = reply status "http_error" detail rid
handle rid (other name text) = reply 500 "internal_error" "Internal server error" rid
