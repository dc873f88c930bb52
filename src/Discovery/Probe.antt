-- ===== src/Discovery/Probe.antt =====
-- The requests of app/services/discovery.py: the listing of a provider and the test of a model. The
-- pauses between the retries only let time pass on the clock. `parsed` is `json.loads` of a text.
pub mod Laws
use demumumind_panel.Shared.{
  ℕ, zero, suc, ◌+◌, ◌-◌, ◌*◌, ◌/◌, String, Bool, true, false, Option, none, some, List, [], ◌∷◌,
  ◌==◌, eqb, leb, if◌then◌else◌, pos,
}
use demumumind_panel.Text.{◌+s◌, lower, contains_any, decimal, nonempty, prefix_of}
use demumumind_panel.Json.{
  Value, Fields, null, int, str, list, dict, nil, cons, end, field, get, or_value, truthy,
}
use demumumind_panel.Errors.{Result, ok, raise, app, other, upstream_error, ◌>>=◌}
use demumumind_panel.Failover.{classify, category_name}
use demumumind_panel.Pool.{Endpoint, HttpRequest, Reply, response, failure, request}
use demumumind_panel.Translate.{normalize_protocol}
use demumumind_panel.Dispatch.{Env, World, monotonic, send}
use demumumind_panel.Discovery.{Codec, is_image_model, parse_model_items, parse_model_list}

-- the response of GET /models, or the error
listing_of : String → Reply → Result Fields
listing_of rid (failure name) =
    raise (app (upstream_error 502 "Provider /models unreachable" (some name) (some rid)))
listing_of rid (response status text json) =
    let body = prefix_of 2000 text in
    if leb 400 status
    then raise (
        app (
          upstream_error status
            ("Provider /models failed (" +s category_name (classify status body).category +s ")")
            (some (prefix_of 300 body)) (some rid)))
    else elim json [
      | none ↦ raise (other "JSONDecodeError" "")
      | some v ↦ elim v [ dict d ↦ ok d | _ ↦ raise (other "AttributeError" "get") ]
    ]

unfoldable pub get_models : Env → Endpoint → String → World → Result Fields × World
unfolding listing_of
get_models env provider rid w =
    let (reply, w1) = send env (request provider "models" "GET" none rid none) w in
    (listing_of rid reply, w1)

-- `discover_provider_models`
unfoldable pub discover_provider_models :
    Codec → Env → Endpoint → String → World → Result (List String) × World
discover_provider_models c env provider rid w =
    let (d, w1) = get_models env provider rid w in
    ((do fields ← d; parse_model_list c provider.protocol fields), w1)

-- `discover_provider_models_with_meta`
unfoldable pub discover_provider_models_with_meta :
    Codec → Env → Endpoint → String → World → Result (List (String × Fields)) × World
discover_provider_models_with_meta c env provider rid w =
    let (d, w1) = get_models env provider rid w in
    ((do fields ← d; parse_model_items c provider.protocol fields), w1)

ping : Value
ping = list (cons (dict (field "role" (str "user") (field "content" (str "ping") end))) nil)

-- `_test_body`
unfoldable pub test_body : String → String → String × Value
unfolding ping
test_body protocol internal_model =
    let proto = normalize_protocol protocol in
    if proto == "anthropic"
    then (
      "v1/messages",
      dict (
          field "model" (str internal_model)
            (field "max_tokens" (int (pos 5)) (field "messages" ping end))),
    )
    else if proto == "gemini"
    then (
      "v1beta/models/" +s internal_model +s ":generateContent",
      dict (
          field "contents"
            (list (
              cons
                (dict (field "parts" (list (cons (dict (field "text" (str "ping") end)) nil)) end))
                nil))
            end),
    )
    else (
      "chat/completions",
      dict (
          field "model" (str internal_model)
            (field "messages" ping (field "max_tokens" (int (pos 5)) end))),
    )

abbrev premium_hints : List String
premium_hints =
    "deposit" ∷ "premium" ∷ "access_denied" ∷ "restricted" ∷ "payment required"
    ∷ "insufficient balance" ∷ "credit" ∷ "billing" ∷ "balance=0" ∷ "insufficient_quota" ∷ []

-- `_is_premium`
unfoldable pub is_premium : String → Bool
is_premium body = contains_any premium_hints (lower body)

-- msg, of the `error` of a body
message_of : Value → Value
message_of (dict err) = or_value (or_value (get "message" err) (get "code" err)) (str "")
message_of (str s) = str s
message_of _ = str ""

short_message : Value → Option String
short_message (str s) = if nonempty s then some (prefix_of 200 s) else none
short_message _ = none

error_of : Option Value → Option String
unfolding message_of short_message
error_of (some (dict d)) = short_message (message_of (or_value (get "error" d) (dict end)))
error_of none = none
error_of (some v) = none

-- `_extract_error`
unfoldable pub extract_error : (String → Option Value) → String → ℕ → String
unfolding error_of
extract_error parsed body status = elim (error_of (parsed body)) [
  | some msg ↦ msg
  | none ↦ "HTTP " +s decimal status
]

-- The values of the field `category`.
pub data TestCategory : Type 0 where
  fine premium rate_limited listed error : TestCategory

pub record DiscoveredModelStatus : Type 0 where
  pub internal_model : String
  pub is_ok : Bool
  pub category : TestCategory
  pub latency_ms : Option ℕ
  pub error : Option String

-- the loop over the replies with status 429, with the number of retries that are left
unfoldable pub retry_429 : Env → HttpRequest → ℕ → Reply × World → Reply × World
retry_429 env r left (failure name, w) = (failure name, w)
retry_429 env r zero (response status text json, w) = (response status text json, w)
retry_429 env r (suc left) (response status text json, w) =
    let again = retry_429 env r left (send env r w) in
    if eqb status 429 then again else (response status text json, w)

-- the status that is made of the last reply
unfoldable pub status_of : (String → Option Value) → String → ℕ → Reply → DiscoveredModelStatus
status_of parsed model latency (failure name) = record {
  internal_model = model;
  is_ok = false;
  category = error;
  latency_ms = none;
  error = some name;
}
status_of parsed model latency (response status text json) =
    let body = prefix_of 2000 text in
    if leb 400 status
    then if eqb status 429
      then record {
        internal_model = model;
        is_ok = false;
        category = rate_limited;
        latency_ms = none;
        error = some "rate limited (429)";
      }
      else record {
        internal_model = model;
        is_ok = false;
        category = if is_premium body then premium else error;
        latency_ms = none;
        error = some (extract_error parsed body status);
      }
    else record {
      internal_model = model;
      is_ok = true;
      category = fine;
      latency_ms = some latency;
      error = none;
    }

-- the rest of the test after the last reply, which reads the clock unless an exception came
unfoldable pub concluded :
    (String → Option Value) → Env → String → ℕ → Reply × World → DiscoveredModelStatus × World
concluded parsed env model start (failure name, w) = (status_of parsed model 0 (failure name), w)
concluded parsed env model start (response status text json, w) =
    let (stop, w1) = monotonic env w in
    (status_of parsed model ((stop - start) * 1000 / env.second) (response status text json), w1)

-- `test_provider_model`
unfoldable pub test_provider_model :
    (String → Option Value)
    → Env
    → Endpoint
    → String
    → String
    → World
    → DiscoveredModelStatus × World
test_provider_model parsed env provider model rid w =
    let (path, body) = test_body provider.protocol model in
    let r = request provider path "POST" (some body) rid none in
    let (start, w1) = monotonic env w in
    if is_image_model model
    then (
      record {
        internal_model = model;
        is_ok = true;
        category = listed;
        latency_ms = some 0;
        error = none;
      },
      w,
    )
    else concluded parsed env model start (retry_429 env r 3 (send env r w1))
