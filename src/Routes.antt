-- ===== src/Routes.antt =====
-- app/api/v1/routes.py: the endpoints that call a model, from the request to the response, with the
-- exception handlers of app/core/errors.py around them. `body.model_dump()` is an argument.
pub mod Nulls
pub mod Laws
pub mod Streamed
pub mod Ends
mod Examples
use demumumind_panel.Shared.{
  ℕ, String, Bool, true, false, Option, none, some, List, [], ◌∷◌, if◌then◌else◌,
}
use demumumind_panel.Json.{Value, Fields, str, set}
use demumumind_panel.Errors.{Result, ok, raise, app, auth_error, ErrorReply, handle}
use demumumind_panel.Auth.{Request, client_key_hash, is_panel_authorized, get_agent_type}
use demumumind_panel.Dispatch.Call.{Setup, Panel, Call, pure, lift, ◌>>=◌, ◌>>◌, Chat}
use demumumind_panel.Dispatch.Chat.{chat_completion}
use demumumind_panel.Dispatch.Image.{image_generation}
use demumumind_panel.Dispatch.Stream.{Delivered, resolve_stream_cache, chat_completion_stream}
use demumumind_panel.Routes.Nulls.{drop_nulls}

-- What arrives: the headers, the id that the middleware gave, and the body that was validated.
pub record Arrival : Type 0 where
  pub request : Request
  pub request_id : String
  pub model : String
  pub stream : Bool
  pub dump : Fields

-- What is sent back: JSON, or a stream whose iteration may raise after the headers are sent, each
-- with the value of X-DM-Cache, or the response of an exception handler.
pub data Response : Type 0 where
  json : Value → Option String → Response
  event_stream : Result Delivered → Option String → Response
  failure : ErrorReply → Response

-- the end of `require_client_key`
unfoldable pub panel_or_refused : String → Result Bool → Result String
panel_or_refused rid (ok true) = ok "__panel__"
panel_or_refused rid (ok false) =
    raise (app (auth_error "Missing or invalid API key" none (some rid)))
panel_or_refused rid (raise e) = raise e

-- `require_client_key`
unfoldable pub require_client_key : Setup → List String → Arrival → Result String
require_client_key s hashes a =
    elim (client_key_hash s.digests.hmac_sha256 s.panel_key hashes a.request) [
      | some key_hash ↦ ok key_hash
      | none ↦ panel_or_refused a.request_id (is_panel_authorized s.panel_key a.request)
    ]

-- `require_panel`
unfoldable pub require_panel : String → Arrival → Result (Unit {0})
require_panel panel_key a = elim (is_panel_authorized panel_key a.request) [
  | ok true ↦ ok tt
  | ok false ↦ raise (app (auth_error "Invalid panel key" none (some a.request_id)))
  | raise e ↦ raise e
]

-- the arguments of a call
unfoldable pub chat_of : String → Arrival → String → Fields → Chat
chat_of protocol a key_hash payload = record {
  request_id = a.request_id;
  key_hash = key_hash;
  agent_type = get_agent_type a.request;
  protocol = protocol;
  model = a.model;
  body = payload;
}

-- an exception becomes the response of its handler
unfoldable pub respond : String → Option (Result Response) × Panel → Option Response × Panel
respond rid (none, p) = (none, p)
respond rid (some (ok r), p) = (some r, p)
respond rid (some (raise e), p) = (some (failure (handle (some rid) e)), p)

-- {"X-DM-Cache": "hit"} if marker.hit else None
unfoldable pub cache_header : Bool → Option String
cache_header hit = if hit then some "hit" else none

-- marker = CacheMarker()
new_marker : Call (Unit {0})
new_marker p = (some (ok tt), record p { hit = false })

marked : Value → Call Response
unfolding cache_header
marked result p = (some (ok (json result (cache_header p.hit))), p)

-- the headers are sent before the stream is read
started : Option (Result Delivered) × Panel → Option (Result Response) × Panel
started (none, p) = (none, p)
started (some d, p) = (some (ok (event_stream d none)), p)

module _ (s : Setup) where
  -- chat_completion with a marker, and its response
  unfoldable pub completion : Chat → Call Response
  unfolding new_marker marked
  completion c = do new_marker; result ← chat_completion s c; marked result

  -- StreamingResponse(chat_completion_stream(…))
  unfoldable pub streaming : Chat → Call Response
  unfolding started
  streaming c p = started (chat_completion_stream s c p)

  cached_or_streaming : Chat → Option String → Call Response
  unfolding streaming
  cached_or_streaming c none = streaming c
  cached_or_streaming c (some sse) =
      pure (event_stream (ok (record { chunks = s.encode sse ∷ []; result = ok tt })) (some "hit"))

  -- the branch of `chat_completions` on body.stream
  unfoldable pub stream_response : Chat → Call Response
  unfolding cached_or_streaming
  stream_response c = do cached ← resolve_stream_cache s c; cached_or_streaming c cached

  -- the response of `chat_completions`, by body.stream
  unfoldable pub chat_response : Bool → Chat → Call Response
  unfolding completion stream_response
  chat_response true c = stream_response c
  chat_response false c = completion c

  -- POST /v1/chat/completions
  unfoldable pub chat_completions : List String → Arrival → Panel → Option Response × Panel
  unfolding chat_response
  chat_completions hashes a p = respond a.request_id (
      (do
        key_hash ← lift (require_client_key s hashes a)
        chat_response a.stream (chat_of "openai" a key_hash (drop_nulls a.dump)))
        p)

  -- POST /v1/images/generations
  unfoldable pub images_generations : List String → Arrival → Panel → Option Response × Panel
  images_generations hashes a p = respond a.request_id (
      (do
        key_hash ← lift (require_client_key s hashes a)
        result ← image_generation s (chat_of "openai" a key_hash (drop_nulls a.dump))
        pure (json result none))
        p)

  -- POST /v1/messages
  unfoldable pub anthropic_messages : List String → Arrival → Panel → Option Response × Panel
  unfolding completion
  anthropic_messages hashes a p = respond a.request_id (
      (do
        key_hash ← lift (require_client_key s hashes a)
        completion (chat_of "anthropic" a key_hash (drop_nulls a.dump)))
        p)

  -- POST /v1/v1beta/models/{model}:generateContent
  unfoldable pub gemini_generate_content : List String → Arrival → Panel → Option Response × Panel
  unfolding completion
  gemini_generate_content hashes a p = respond a.request_id (
      (do
        key_hash ← lift (require_client_key s hashes a)
        completion (chat_of "gemini" a key_hash (set "model" (str a.model) (drop_nulls a.dump))))
        p)
