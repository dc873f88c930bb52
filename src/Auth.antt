-- ===== src/Auth.antt =====
-- app/api/v1/middleware.py: the key of a request, who is let in, the agent type and the request id.
-- Headers are a dict by their names in lower case; `hmac` is a parameter, and the table of keys a
-- list of hashes.
pub mod Laws
mod Examples
use demumumind_panel.Shared.{
  ℕ, String, Bool, true, false, not, ◌&&◌, Option, none, some, List, [], ◌∷◌, ◌==◌, any,
  if◌then◌else◌,
}
use demumumind_panel.Shared.Dict.{Dict, lookup, insert}
use demumumind_panel.Text.{lower, strip, partition, nonempty, or_text, is_ascii}
use demumumind_panel.Errors.{Result, ok, raise, other}
use demumumind_panel.Manager.{present}

pub record Request : Type 0 where
  pub headers : Dict String
  pub query_params : Dict String

-- `hash_key`
unfoldable pub hash_key : (String → String → String) → String → String → String
hash_key hmac_sha256 panel_key raw_key = hmac_sha256 panel_key raw_key

-- the token behind the scheme
token_of : String × Bool × String → Option String
token_of (scheme, found, token) =
    if not (lower scheme == "bearer")
    then none
    else if nonempty token
    then some (strip token)
    else none

-- `_bearer_token`
unfoldable pub bearer_token : Option String → Option String
unfolding token_of
bearer_token none = none
bearer_token (some authorization) =
    if nonempty authorization then token_of (partition b' ' authorization) else none

-- hmac.compare_digest(a, b) on texts, which must be ASCII
unfoldable pub compare_digest : String → String → Result Bool
compare_digest a b =
    if is_ascii a && is_ascii b
    then ok (a == b)
    else raise (other "TypeError" "comparing strings with non-ASCII characters is not supported")

-- `is_panel_authorized`
unfoldable pub is_panel_authorized : String → Request → Result Bool
is_panel_authorized panel_key r = elim (bearer_token (lookup "authorization" r.headers)) [
  | none ↦ ok false
  | some token ↦ if nonempty token then compare_digest token panel_key else ok false
]

-- a or b, of optional texts
unfoldable pub or_key : Option String → Option String → Option String
or_key a b = if present a then a else b

-- the first credential of a request
unfoldable pub raw_key : Request → Option String
raw_key r =
    let raw =
      or_key (lookup "x-api-key" r.headers) (bearer_token (lookup "authorization" r.headers)) in
    or_key (or_key raw (lookup "x-goog-api-key" r.headers)) (lookup "key" r.query_params)

-- SELECT key_hash … WHERE key_hash = …
known : List String → String → Option String
known hashes h = if any (λ k. k == h) hashes then some h else none

-- `client_key_hash`
unfoldable pub client_key_hash :
    (String → String → String) → String → List String → Request → Option String
unfolding known
client_key_hash hmac_sha256 panel_key hashes r = elim (raw_key r) [
  | none ↦ none
  | some raw ↦ if nonempty raw then known hashes (hash_key hmac_sha256 panel_key raw) else none
]

-- `get_agent_type`
unfoldable pub get_agent_type : Request → String
get_agent_type r =
    or_text (strip (elim (lookup "x-agent-type" r.headers) [ none ↦ "default" | some a ↦ a ]))
      "default"

-- the id of a request; `uuid` is a fresh one
unfoldable pub request_id_of : String → Request → String
request_id_of uuid r = elim (lookup "x-request-id" r.headers) [
  | none ↦ uuid
  | some s ↦ or_text s uuid
]

-- `XRequestIDMiddleware.dispatch`: what follows gets the id and answers with headers
unfoldable pub with_request_id :
    {A : Type 0} → String → (String → A × Dict String) → Request → A × Dict String
with_request_id uuid call_next r =
    let rid = request_id_of uuid r in
    let (a, headers) = call_next rid in (a, insert "X-Request-ID" rid headers)
