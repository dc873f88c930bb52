-- ===== src/Pool.antt =====
-- app/services/pool.py: the requests that `ProviderPool` hands to the HTTP client. The client is
-- httpx, a parameter of what sends requests.
pub mod Laws
mod Examples
use demumumind_panel.Shared.{
  ℕ, String, Bool, true, false, Option, none, some, List, [], ◌∷◌, ◌==◌, if◌then◌else◌,
}
use demumumind_panel.Shared.Dict.{Dict, lookup, insert, has}
use demumumind_panel.Text.{◌+s◌, nonempty, or_text, upper, lstrip_char, rstrip_char}
use demumumind_panel.Json.{Value}

-- The fields of a `Provider` that a request reads.
pub record Endpoint : Type 0 where
  pub id : String
  pub name : String
  pub base_url : String
  pub api_key : Option String
  pub protocol : String

pub record HttpRequest : Type 0 where
  pub method : String
  pub url : String
  pub headers : Dict String
  pub json_body : Option Value
  -- the limit in seconds, if it is not the 30 seconds of the client
  pub timeout : Option ℕ

-- `_PROTOCOL_HEADERS`: the name of the header and what stands before the key.
unfoldable pub protocol_header : String → String × String
protocol_header protocol =
    if protocol == "azure"
    then ("api-key", "")
    else if protocol == "anthropic"
    then ("x-api-key", "")
    else if protocol == "gemini"
    then ("x-goog-api-key", "")
    else ("Authorization", "Bearer ")

key_headers : String → Option String → Dict String
key_headers protocol none = []
key_headers protocol (some key) =
    let (name, before) = protocol_header protocol in
    if nonempty key then (name, before +s key) ∷ [] else []

set_default : String → String → Dict String → Dict String
set_default k v d = if has k d then d else insert k v d

-- `auth_headers`
unfoldable pub auth_headers : Endpoint → Dict String
unfolding key_headers set_default
auth_headers provider =
    let protocol = or_text provider.protocol "openai" in
    let headers = key_headers protocol provider.api_key in
    if protocol == "anthropic"
    then set_default "anthropic-version" "2023-06-01" headers
    else headers

-- `_url`
unfoldable pub url_of : Endpoint → String → String
url_of provider path = rstrip_char b'/' provider.base_url +s "/" +s lstrip_char b'/' path

-- what `request` sends
unfoldable pub request : Endpoint → String → String → Option Value → String → Option ℕ → HttpRequest
request provider path method json_body request_id timeout = record {
  method = upper method;
  url = url_of provider path;
  headers = insert "X-Request-ID" request_id (auth_headers provider);
  json_body = json_body;
  timeout = timeout;
}

-- what `request_stream` sends
unfoldable pub request_stream : Endpoint → String → String → Option Value → String → HttpRequest
request_stream provider path method json_body request_id =
    request provider path method json_body request_id none

-- what `request_url` sends
unfoldable pub request_url : String → Dict String → String → Option Value → String → HttpRequest
request_url url headers method json_body request_id = record {
  method = upper method;
  url = url;
  headers = insert "X-Request-ID" request_id headers;
  json_body = json_body;
  timeout = none;
}

-- What the client answers: a response with its status, its text and the value of the text if it is
-- JSON, or an exception, by class.
pub data Reply : Type 0 where
  response : ℕ → String → Option Value → Reply
  failure : String → Reply
