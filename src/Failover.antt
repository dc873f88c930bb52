-- ===== src/Failover.antt =====
-- app/services/failover.py: the classification of upstream failures, and the exponential back-off.
pub mod Laws
mod Examples
use demumumind_panel.Shared.{
  ℕ, ◌+◌, ◌*◌, ◌^◌, min, String, Bool, true, false, ◌||◌, List, [], ◌∷◌, eqb, if◌then◌else◌,
}
use demumumind_panel.Text.{◌+s◌, lower, contains, contains_any, decimal}

abbrev context_hints : List String
context_hints = "context" ∷ "token" ∷ "length" ∷ "too large" ∷ "max_input" ∷ []

abbrev billing_hints : List String
billing_hints = "billing" ∷ "quota" ∷ "payment" ∷ "credit" ∷ "insufficient_quota" ∷ []

abbrev model_hints : List String
model_hints = "model" ∷ "not found" ∷ "does not exist" ∷ "no such" ∷ []

-- The values of the field `category`.
pub data Category : Type 0 where
  auth billing rate_limit timeout context_overflow model_error unknown : Category

unfoldable pub category_name : Category → String
category_name auth = "auth"
category_name billing = "billing"
category_name rate_limit = "rate_limit"
category_name timeout = "timeout"
category_name context_overflow = "context_overflow"
category_name model_error = "model_error"
category_name unknown = "unknown"

pub record FailoverDecision : Type 0 where
  pub category : Category
  pub backoff_ms : ℕ
  pub rotate_key : Bool
  pub retry_same_key : Bool
  pub message : String
  pub alert : Bool

-- `_contains`
unfoldable pub has_hint : String → List String → Bool
has_hint body hints = contains_any hints (lower body)

-- The first test of `classify`.
unfoldable pub is_auth : ℕ → String → Bool
is_auth status text =
    (eqb status 401 || eqb status 403)
    || contains text "unauthorized"
    || contains text "invalid api key"

pub with_status : String → ℕ → String
with_status what status = what +s " (" +s decimal status +s ")"

unfoldable pub classify : ℕ → String → FailoverDecision
classify status text =
    if is_auth status text
    then record {
      category = auth;
      backoff_ms = 0;
      rotate_key = true;
      retry_same_key = false;
      message = with_status "auth failure" status;
      alert = false;
    }
    else if eqb status 402 || has_hint text billing_hints
    then record {
      category = billing;
      backoff_ms = 0;
      rotate_key = true;
      retry_same_key = false;
      message = with_status "billing/quota failure" status;
      alert = true;
    }
    else if eqb status 429
    then record {
      category = rate_limit;
      backoff_ms = 500;
      rotate_key = true;
      retry_same_key = true;
      message = "rate limited (429)";
      alert = false;
    }
    else if eqb status 408 || eqb status 504 || eqb status 524
    then record {
      category = timeout;
      backoff_ms = 250;
      rotate_key = false;
      retry_same_key = true;
      message = with_status "timeout" status;
      alert = false;
    }
    else if eqb status 413 || has_hint text context_hints
    then record {
      category = context_overflow;
      backoff_ms = 0;
      rotate_key = false;
      retry_same_key = true;
      message = "context overflow, compact and retry";
      alert = false;
    }
    else if (eqb status 404 || eqb status 422) || has_hint text model_hints
    then record {
      category = model_error;
      backoff_ms = 0;
      rotate_key = false;
      retry_same_key = false;
      message = "model error, next model in chain";
      alert = false;
    }
    else record {
      category = unknown;
      backoff_ms = 200;
      rotate_key = false;
      retry_same_key = true;
      message = with_status "unknown error" status;
      alert = false;
    }

unfoldable pub backoff_ms : ℕ → ℕ
backoff_ms attempt = min (500 * 2 ^ attempt) 30000
