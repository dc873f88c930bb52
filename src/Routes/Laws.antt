-- ===== src/Routes/Laws.antt =====
-- app/api/v1/routes.py: who is turned away.
use demumumind_panel.Shared.{String, ◌≡◌, false, none, some, List}
use demumumind_panel.Errors.{ok, raise, Exception, app, auth_error, ErrorReply, handle}
use demumumind_panel.Errors.Laws.{handle_consistent}
use demumumind_panel.Auth.{client_key_hash, is_panel_authorized}
use demumumind_panel.Dispatch.Call.{Setup, Panel, ◌>>=◌}
use demumumind_panel.Routes.{
  Arrival, failure, panel_or_refused, require_client_key, respond, chat_completions,
  images_generations, anthropic_messages, gemini_generate_content,
}

module _ (s : Setup) (hashes : List String) (a : Arrival) where
  abbrev pub missing_key : Exception
  missing_key = app (auth_error "Missing or invalid API key" none (some a.request_id))

  -- the response to a request without a key that is known
  abbrev pub refusal : ErrorReply
  refusal = handle (some a.request_id) missing_key

  no_key :
      client_key_hash s.digests.hmac_sha256 s.panel_key hashes a.request ≡ none
      → is_panel_authorized s.panel_key a.request ≡ ok false
      → require_client_key s hashes a ≡ raise missing_key
  unfolding require_client_key panel_or_refused
  no_key unknown unauthorized = rw (unknown, unauthorized, require_client_key)

  -- A request whose credential is no client key that the table has, and whose bearer token, if it has
  -- one, is compared with the panel key without an exception and differs from it: each of the four endpoints that call a model answers with status 401 and leaves the
  -- panel as it was, so that nothing is sent to a provider, cached or recorded.
  pub turned_away :
      (p : Panel)
      → client_key_hash s.digests.hmac_sha256 s.panel_key hashes a.request ≡ none
      → is_panel_authorized s.panel_key a.request ≡ ok false
      → (refusal.http_status ≡ 401)
        × (chat_completions s hashes a p ≡ (some (failure refusal), p))
        × (images_generations s hashes a p ≡ (some (failure refusal), p))
        × (anthropic_messages s hashes a p ≡ (some (failure refusal), p))
        × (gemini_generate_content s hashes a p ≡ (some (failure refusal), p))
  unfolding chat_completions images_generations anthropic_messages gemini_generate_content respond
      auth_error ◌>>=◌
  turned_away p unknown unauthorized =
      let e = no_key unknown unauthorized in
      ((handle_consistent (some a.request_id) missing_key).0, rw e, rw e, rw e, rw e)
