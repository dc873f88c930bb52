-- ===== src/Routes/Streamed.antt =====
-- app/api/v1/routes.py: streams that stand in the cache, and models that are not there.
use demumumind_panel.Shared.{
  String, ◌≡◌, refl, ap, ◌∙◌, sym, Bool, true, false, Option, none, some, List, [], ◌∷◌,
  if◌then◌else◌,
}
use demumumind_panel.Text.{◌+s◌}
use demumumind_panel.Errors.{Result, ok, raise, Exception, app, not_found_error, handle}
use demumumind_panel.Errors.Laws.{handle_consistent}
use demumumind_panel.Manager.Resolve.{resolve}
use demumumind_panel.Translate.Values.{to_str}
use demumumind_panel.Dispatch.Call.{Setup, Panel, ◌>>=◌, Chat, find_model}
use demumumind_panel.Dispatch.Call.Runs.{Runs}
use demumumind_panel.Dispatch.Chat.{chat_completion}
use demumumind_panel.Dispatch.Stream.{resolve_stream_cache, chat_completion_stream}
use demumumind_panel.Dispatch.Stream.Quiet.{traces, resolve_stream_cache-Keeps}
use demumumind_panel.Routes.{
  Arrival, event_stream, failure, require_client_key, respond, chat_of, streaming,
  cached_or_streaming, stream_response, completion, chat_response, chat_completions, started,
  new_marker,
}
use demumumind_panel.Routes.Nulls.{drop_nulls}

module _ (s : Setup) (hashes : List String) (a : Arrival) where
  -- the arguments of the call that the endpoint for chats makes
  abbrev pub chat : String → Chat
  chat key_hash = chat_of "openai" a key_hash (drop_nulls a.dump)

  -- a call with a known key
  let_in :
      (key_hash : String) (b : Bool) (p : Panel)
      → a.stream ≡ b
      → require_client_key s hashes a ≡ ok key_hash
      → chat_completions s hashes a p ≡ respond a.request_id (chat_response s b (chat key_hash) p)
  unfolding chat_completions ◌>>=◌
  let_in key_hash b p stream key =
      rw key (ap (λ x. respond a.request_id (chat_response s x (chat key_hash) p)) stream)

  hit_response :
      (c : Chat) (sse : String) (p q : Panel)
      → Runs (resolve_stream_cache s c) p (some sse) q
      → respond a.request_id (chat_response s true c p) ≡ (
        some (
            event_stream (ok (record { chunks = s.encode sse ∷ []; result = ok tt })) (some "hit")),
        q,
      )
  unfolding chat_response stream_response cached_or_streaming respond ◌>>=◌
  hit_response c sse p q run = rw run

  -- A request for a stream by a known key, for which `resolve_stream_cache` finds a text: the endpoint
  -- answers with this text, encoded, as the only chunk and marks it as a hit. Nothing is sent to a provider, and
  -- no row of usage is written, unlike for a hit of a request that is no stream.
  pub cached_stream :
      (key_hash sse : String) (p q : Panel)
      → a.stream ≡ true
      → require_client_key s hashes a ≡ ok key_hash
      → Runs (resolve_stream_cache s (chat key_hash)) p (some sse) q
      → (chat_completions s hashes a p ≡ (
        some (
            event_stream (ok (record { chunks = s.encode sse ∷ []; result = ok tt })) (some "hit")),
        q,
      ))
        × (traces q ≡ traces p)
  cached_stream key_hash sse p q stream key run = (
    let_in key_hash true p stream key ∙ hit_response (chat key_hash) sse p q run,
    ap (λ (o : Option (Result (Option String)) × Panel). traces o.1) (sym run)
        ∙ resolve_stream_cache-Keeps s (chat key_hash) p,
  )

  -- the NotFoundError of a call
  abbrev pub missing : Exception
  missing = app (not_found_error ("Model not found: " +s a.model) none (some a.request_id))

  missing_response :
      (key_hash : String) (b : Bool) (p : Panel)
      → resolve (to_str s.codec) a.model (some key_hash) p.world.manager ≡ ok none
      → respond a.request_id (chat_response s b (chat key_hash) p) ≡ (
          if b
          then (some (event_stream (raise missing) none), p)
          else (some (failure (handle (some a.request_id) missing)), record p { hit = false }))
  unfolding chat_response stream_response cached_or_streaming respond ◌>>=◌ completion streaming
      started new_marker resolve_stream_cache chat_completion_stream chat_completion find_model
      chat_of
  missing_response key_hash true p none_found = rw none_found (rw none_found)
  missing_response key_hash false p none_found = rw none_found

  -- A request by a known key for a model that does not resolve: without `stream` the endpoint answers
  -- with the 404 of the NotFoundError; with `stream` it begins a stream, as for an answer, and the
  -- NotFoundError is raised while the stream is read. Nothing else is changed but the marker.
  pub missing_model :
      (key_hash : String) (p : Panel)
      → require_client_key s hashes a ≡ ok key_hash
      → resolve (to_str s.codec) a.model (some key_hash) p.world.manager ≡ ok none
      → ((handle (some a.request_id) missing).http_status ≡ 404)
        × (chat_completions s hashes a p ≡ (
            if a.stream
            then (some (event_stream (raise missing) none), p)
            else (some (failure (handle (some a.request_id) missing)), record p { hit = false })))
  unfolding not_found_error
  missing_model key_hash p key none_found = (
    (handle_consistent (some a.request_id) missing).0,
    let_in key_hash a.stream p refl key ∙ missing_response key_hash a.stream p none_found,
  )
