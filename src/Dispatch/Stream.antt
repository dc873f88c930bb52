-- ===== src/Dispatch/Stream.antt =====
-- `resolve_stream_cache` and `chat_completion_stream` of app/services/dispatch.py.
pub mod Total
pub mod Kept
pub mod Quiet
pub mod Replayed
mod Examples
use demumumind_panel.Shared.{
  ℕ, suc, String, Bool, true, false, not, ◌&&◌, Option, none, some, List, [], ◌∷◌, leb, is_empty,
  if◌then◌else◌, ℤ, pos, ◌==◌,
}
use demumumind_panel.Text.{Bytes, prefix_of}
use demumumind_panel.Json.{Value, dict, Fields, get}
use demumumind_panel.Errors.{Result, ok, raise, app, other, upstream_error}
use demumumind_panel.Pool.{HttpRequest, request_stream}
use demumumind_panel.Cache.{CacheService}
use demumumind_panel.Cache.Key.{get_stream, set_stream}
use demumumind_panel.Manager.{ResolvedModel}
use demumumind_panel.Manager.Resolve.{resolve}
use demumumind_panel.Usage.{UsageRow}
use demumumind_panel.Translate.{normalize_protocol}
use demumumind_panel.Translate.Values.{to_str}
use demumumind_panel.Translate.Route.{translate_request}
use demumumind_panel.Dispatch.{World, provider_path, to_provider}
use demumumind_panel.Dispatch.Request.{pick}
use demumumind_panel.Dispatch.Cost.{resolve_cost, counts_as_free, is_unlimited_model}
use demumumind_panel.Dispatch.Prompt.{prompt_of}
use demumumind_panel.Dispatch.StreamUsage.{
  join_bytes, extract_stream_usage, stream_tokens, lookup_of,
}
use demumumind_panel.Dispatch.Call.{
  Setup, Panel, Ending, finished, broken, abandoned, StreamReply, opened, refused, Call, pure, lift,
  when, ◌>>=◌, ◌>>◌, Chat, find_model, record_row, free_row, read_cache, write_cache,
  temperature_of, is_cold, has_pricing,
}

-- what the reader of a stream gets: the chunks, and how it ends
pub record Delivered : Type 0 where
  pub chunks : List Bytes
  pub result : Result (Unit {0})

-- `_extract_stream_usage(sse_chunks) if sse_chunks else None`
usage_of_chunks : Setup → List Bytes → Result (Option Fields)
usage_of_chunks s [] = ok none
usage_of_chunks s (x ∷ xs) = extract_stream_usage s.codec s.decode (x ∷ xs)

module _ (s : Setup) where
  stream_row : Chat → ResolvedModel → ℤ → ℤ → ℤ → Bool → Panel → UsageRow
  stream_row c resolved tokens_in tokens_out cost price_known p = record {
    agent_type = c.agent_type;
    provider_id = some resolved.provider_id;
    model_id = resolved.model_id;
    tokens_in = tokens_in;
    tokens_out = tokens_out;
    cost_usd = cost;
    is_free = counts_as_free (some resolved) cost price_known;
    unlimited = is_unlimited_model (some resolved);
    price_known = price_known;
    cache_hit = false;
    created_at = s.utcnow p.sessions;
  }

  -- `_record_stream_db_usage`
  record_stream : Chat → ResolvedModel → List Bytes → Call (Unit {0})
  unfolding stream_row usage_of_chunks
  record_stream c resolved chunks = do
    usage ← lift (usage_of_chunks s chunks)
    tokens_in ← lift (stream_tokens s.int_of "prompt_tokens" usage)
    tokens_out ← lift (stream_tokens s.int_of "completion_tokens" usage)
    let (cost, price_known) = resolve_cost (some resolved) (lookup_of usage) tokens_in tokens_out
    λ p. record_row s (stream_row c resolved tokens_in tokens_out cost price_known p) p

  -- the read of the SSE slot
  read_stream : Chat → String → Call (Option String)
  read_stream c prompt = read_cache s λ now.
      get_stream s.digests s.panel_key now c.model prompt
        (temperature_of (get "temperature" c.body)) (get "tools" c.body) c.key_hash

  write_stream : Chat → String → List Bytes → Call (Unit {0})
  write_stream c prompt chunks = write_cache s λ now.
      set_stream s.digests s.panel_key now c.model prompt
        (temperature_of (get "temperature" c.body)) (get "tools" c.body)
        (s.decode (join_bytes chunks)) c.key_hash

  resolved_or_none : Result (Option ResolvedModel) → Result Bool
  resolved_or_none (raise e) = raise e
  resolved_or_none (ok none) = ok false
  resolved_or_none (ok (some r)) = ok true

  -- `resolve_stream_cache`: the text of a hit
  unfoldable pub resolve_stream_cache : Chat → Call (Option String)
  unfolding resolved_or_none read_stream
  resolve_stream_cache c = do
    known ← (λ p.
        lift (resolved_or_none (resolve (to_str s.codec) c.model (some c.key_hash) p.world.manager))
          p)
    if known
        then (do
          prompt ← lift (prompt_of s.codec c.body)
          if is_cold (get "temperature" c.body) then read_stream c prompt else pure none)
        else pure none

  -- the `finally` block, with the chunks so far
  unfoldable pub finish : Chat → ResolvedModel → String → List Bytes → Call (Unit {0})
  unfolding write_stream record_stream
  finish c resolved prompt chunks = do
    when (is_cold (get "temperature" c.body) && not (is_empty chunks))
        (write_stream c prompt chunks)
    record_stream c resolved chunks

  ended : Ending → Result (Unit {0})
  ended finished = ok tt
  ended (broken name) = raise (other name "")
  ended abandoned = raise (other "GeneratorExit" "")

  -- An exception of the `finally` block takes the place of the one before.
  deliver :
      Ending → List Bytes → Option (Result (Unit {0})) × Panel → Option (Result Delivered) × Panel
  unfolding ended
  deliver ending chunks (none, p) = (none, p)
  deliver ending chunks (some (ok _), p) =
      (some (ok (record { chunks = chunks; result = ended ending })), p)
  deliver ending chunks (some (raise e), p) =
      (some (ok (record { chunks = chunks; result = raise e })), p)

  -- what is done with the reply of the provider
  pub relay : Chat → ResolvedModel → String → StreamReply → Call Delivered
  unfolding deliver finish
  relay c resolved prompt (refused name) = lift (raise (other name ""))
  relay c resolved prompt (opened status text chunks ending) =
      if leb 400 status
      then (do
        t ← lift text
        lift (
            raise (
              app (
                upstream_error status "Upstream provider error"
                  (some (prefix_of 300 (prefix_of 2000 t))) (some c.request_id)))))
      else λ p. deliver ending chunks (finish c resolved prompt chunks p)

  -- manager.pick_key and pool.request_stream
  open_stream : Chat → ResolvedModel → String → Fields → Call StreamReply
  unfolding pick
  open_stream c resolved target translated p =
      let (key, w) = pick s.env resolved.provider_id 0 p.world in
      let r =
        request_stream (to_provider resolved key) (provider_path target resolved.internal_model)
          "POST" (some (dict translated)) c.request_id in
      (some (ok (s.stream_client w.sent r)), record p { world = record w { sent = r ∷ w.sent } })

  -- a hit of the cache
  pub replay : Chat → ResolvedModel → String → Call Delivered
  replay c resolved cached = do
    (λ p. record_row s (free_row s c resolved (has_pricing resolved) true p) p)
    pure (record { chunks = s.encode cached ∷ []; result = ok tt })

  pub ask : Chat → ResolvedModel → String → Call Delivered
  unfolding open_stream relay
  ask c resolved prompt = do
    let target = normalize_protocol resolved.protocol
    translated ← lift (translate_request s.codec c.protocol target c.body resolved.internal_model)
    reply ← open_stream c resolved target translated
    relay c resolved prompt reply

  pub look_up : Chat → String → Call (Option String)
  unfolding read_stream
  look_up c prompt = if is_cold (get "temperature" c.body) then read_stream c prompt else pure none

  -- the stream of a model that was found
  unfoldable pub stream_of : Chat → ResolvedModel → Call Delivered
  unfolding replay ask look_up
  stream_of c resolved = do
    prompt ← lift (prompt_of s.codec c.body)
    cached ← look_up c prompt
    elim cached [ some v ↦ replay c resolved v | none ↦ ask c resolved prompt ]

  -- `chat_completion_stream`, read to its ending
  unfoldable pub chat_completion_stream : Chat → Call Delivered
  chat_completion_stream c = do resolved ← find_model s c; stream_of c resolved
