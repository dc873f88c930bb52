-- ===== src/Dispatch/Chat.antt =====
-- `chat_completion` of app/services/dispatch.py: one call from the alias of the model to the answer
-- in the client's protocol.
pub mod Total
pub mod Cached
pub mod Again
pub mod Unread
pub mod Budget
pub mod Guarded
pub mod Unguarded
mod Examples
use demumumind_panel.Shared.{
  ℕ, suc, String, Bool, true, false, not, ◌&&◌, Option, none, some, List, [], ◌∷◌, ◌==◌,
  if◌then◌else◌, ℤ, pos,
}
use demumumind_panel.Json.{Value, str, dict, Fields, end, field, get, truthy, set, is_null}
use demumumind_panel.Errors.{Result, ok, raise}
use demumumind_panel.Guardrails.{validate_input, validate_output}
use demumumind_panel.Cache.Key.{get_cached, set_cached}
use demumumind_panel.Manager.{ResolvedModel}
use demumumind_panel.Usage.{UsageRow}
use demumumind_panel.Translate.{normalize_protocol}
use demumumind_panel.Translate.Values.{as_dict, copy, text}
use demumumind_panel.Translate.Route.{translate_request, translate_response}
use demumumind_panel.Dispatch.Request.{Task}
use demumumind_panel.Dispatch.Cost.{tokens_from, resolve_cost, counts_as_free, is_unlimited_model}
use demumumind_panel.Dispatch.Prompt.{prompt_of, choice_content, answer_text}
use demumumind_panel.Dispatch.Call.{
  Setup, Panel, Call, pure, lift, when, ◌>>=◌, ◌>>◌, Chat, find_model, request, record_row,
  free_row, read_cache, write_cache, temperature_of, is_cold, has_pricing,
}
use demumumind_panel.Dispatch.Image.{image_generation}

-- temperature in (None, 0, 0.0) and not body.get("stream")
unfoldable pub is_cacheable : Fields → Bool
is_cacheable body = is_cold (get "temperature" body) && not (truthy (get "stream" body))

-- the body for the images endpoint
unfoldable pub image_body : Chat → String → Fields
image_body c prompt = copy "response_format" "response_format" c.body (
    copy "style" "style" c.body (
      copy "quality" "quality" c.body (
        copy "size" "size" c.body
          (copy "n" "n" c.body (text "model" c.model (text "prompt" prompt end))))))

chat_task : Chat → ResolvedModel → String → Fields → Task
chat_task c resolved target translated = record {
  resolved = resolved;
  target = target;
  body = dict translated;
  request_id = c.request_id;
  path_override = none;
  request_timeout = none;
}

module _ (s : Setup) where
  usage_row : Chat → ResolvedModel → ℤ → ℤ → ℤ → Bool → Panel → UsageRow
  usage_row c resolved tokens_in tokens_out cost price_known p = record {
    agent_type = c.agent_type;
    provider_id = some resolved.provider_id;
    model_id = resolved.model_id;
    tokens_in = tokens_in;
    tokens_out = tokens_out;
    cost_usd = cost;
    is_free = counts_as_free (some resolved) cost price_known;
    unlimited = is_unlimited_model (some resolved);
    price_known = price_known;
    cache_hit = false;
    created_at = s.utcnow p.sessions;
  }

  -- the usage of an answer of the provider
  record_answer : Chat → ResolvedModel → String → Fields → Call (Unit {0})
  unfolding usage_row
  record_answer c resolved target answer = do
    (tokens_in, tokens_out) ← lift (tokens_from s.int_of answer target)
    let (cost, price_known) = resolve_cost (some resolved) (dict answer) tokens_in tokens_out
    λ p. record_row s (usage_row c resolved tokens_in tokens_out cost price_known p) p

  -- what a read of the cache finds
  pub hit : Chat → ResolvedModel → String → Call Value
  hit c resolved cached = do
    (λ p. (some (ok tt), record p { hit = true }))
    (λ p. record_row s (free_row s c resolved (has_pricing resolved) true p) p)
    lift (s.codec.loads cached)

  -- what is done with the answer of the provider
  answered : Chat → ResolvedModel → String → String → Value × ℕ → Call Value
  unfolding record_answer
  answered c resolved prompt target (answer, latency) = do
    answer_fields ← lift (as_dict answer)
    output ← lift (translate_response s.codec target c.protocol answer_fields)
    content ← lift (choice_content output)
    checked ← lift (validate_output s.guardrail (some (answer_text s.codec content)))
    when (is_cacheable c.body) (
        write_cache s λ now.
          set_cached s.digests s.panel_key now c.model prompt
            (temperature_of (get "temperature" c.body)) (get "tools" c.body)
            (s.dumps_unicode (dict output)) c.key_hash)
    record_answer c resolved target answer_fields
    pure (dict output)

  -- the call of the provider
  pub ask : Chat → ResolvedModel → String → Call Value
  unfolding chat_task answered
  ask c resolved prompt = do
    let target = normalize_protocol resolved.protocol
    translated ← lift (translate_request s.codec c.protocol target c.body resolved.internal_model)
    r ← request s (chat_task c resolved target translated)
    answered c resolved prompt target r

  -- the cached answer, if the request is cacheable and it is there
  pub look_up : Chat → String → Call (Option String)
  look_up c prompt =
      if is_cacheable c.body
      then (read_cache s λ now.
          get_cached s.digests s.panel_key now c.model prompt
            (temperature_of (get "temperature" c.body)) (get "tools" c.body) c.key_hash)
      else pure none

  -- the call on a model that is no image model
  pub text_completion : Chat → ResolvedModel → Call Value
  unfolding hit ask look_up
  text_completion c resolved = do
    prompt ← lift (prompt_of s.codec c.body)
    lift (validate_input s.guardrail (some prompt))
    cached ← look_up c prompt
    elim cached [ some v ↦ hit c resolved v | none ↦ ask c resolved prompt ]

  -- An image model answers through `image_generation`.
  by_kind : Chat → ResolvedModel → Call Value
  unfolding text_completion
  by_kind c resolved =
      if resolved.kind == "image"
      then (do
        prompt ← lift (prompt_of s.codec c.body)
        image_generation s (record c { body = image_body c prompt }))
      else text_completion c resolved

  -- `chat_completion`
  unfoldable pub chat_completion : Chat → Call Value
  unfolding by_kind
  chat_completion c = do resolved ← find_model s c; by_kind c resolved
