-- ===== src/Dispatch/Call.antt =====
-- A call of app/services/dispatch.py on the state of the panel: what the functions share. A call
-- returns a value or raises, and keeps what it has changed; `none` is that fuel ran out.
pub mod Total
pub mod Runs
use demumumind_panel.Shared.{
  ℕ, zero, suc, ◌+◌, String, Bool, true, false, ◌&&◌, ◌||◌, Option, none, some, List, [], ◌∷◌,
  length, if◌then◌else◌, ℤ, pos,
}
use demumumind_panel.Text.{◌+s◌, Bytes}
use demumumind_panel.Json.{Value, Fields, get, truthy, is_null, eq_value, int}
use demumumind_panel.Errors.{Result, ok, raise, app, not_found_error}
use demumumind_panel.Guardrails.{GuardrailService}
use demumumind_panel.Cache.{CacheService}
use demumumind_panel.Cache.Key.{Digests, get_cached, set_cached, get_stream, set_stream}
use demumumind_panel.Pool.{HttpRequest}
use demumumind_panel.Manager.{ResolvedModel}
use demumumind_panel.Manager.Keys.{active_keys}
use demumumind_panel.Manager.Resolve.{resolve}
use demumumind_panel.Usage.{UsageRow}
use demumumind_panel.Translate.Values.{Codec, to_str}
use demumumind_panel.Dispatch.{Env, World, monotonic}
use demumumind_panel.Dispatch.Request.{Task, do_request}
use demumumind_panel.Dispatch.Cost.{is_free_model, is_unlimited_model}
use demumumind_panel.Dispatch.Usage.{DbReply, record_db_usage}

-- A row of `image_generations`, without its id and time.
pub record ImageRow : Type 0 where
  pub provider_id : Option String
  pub model_id : Option String
  pub agent_type : String
  pub prompt : String
  pub size : String
  pub n : ℤ
  pub file_path : String

-- How the chunks of a streamed answer end: with the answer, by an exception of the HTTP client, or
-- because the reader of the chunks goes away.
pub data Ending : Type 0 where
  finished : Ending
  broken : String → Ending
  abandoned : Ending

-- What `client.send(…, stream=True)` gives: a response with its status, what reading its `text` gives
-- and its chunks, or an exception by class.
pub data StreamReply : Type 0 where
  opened : ℕ → Result String → List Bytes → Ending → StreamReply
  refused : String → StreamReply

-- What a call finds outside and does not change: the clock and the HTTP client, `json`, UTF-8, the digests,
-- `int`, the rules of the guardrails, the answers of the database to the attempts of each session
-- and the time of its rows.
pub record Setup : Type 0 where
  pub env : Env
  pub codec : Codec
  pub stream_client : List HttpRequest → HttpRequest → StreamReply
  -- b.decode("utf-8", errors="replace") and s.encode("utf-8")
  pub decode : Bytes → String
  pub encode : String → Bytes
  -- json.dumps(v, ensure_ascii=False)
  pub dumps_unicode : Value → String
  pub digests : Digests
  pub panel_key : String
  pub int_of : Value → Result ℤ
  pub guardrail : GuardrailService
  pub db : ℕ → ℕ → DbReply
  pub utcnow : ℕ → ℕ
  -- where an image is written, or the exception that decoding or writing raises
  pub save_image : ℕ → String → Result String
  -- whether the session that stores an image's row commits
  pub image_commits : ℕ → Bool

pub record Panel : Type 0 where
  pub world : World
  pub cache : CacheService
  pub usage : List UsageRow
  pub images : List ImageRow
  -- the sessions that were opened for usage
  pub sessions : ℕ
  -- the marker of the call
  pub hit : Bool

abbrev pub Call : Type 0 → Type 0
Call A = Panel → Option (Result A) × Panel

module _ {A : Type 0} where
  abbrev pub pure : A → Call A
  pure a p = (some (ok a), p)

  abbrev pub lift : Result A → Call A
  lift r p = (some r, p)

-- what follows the outcome of a call
abbrev pub bound :
    {A B : Type 0} → (A → Call B) → Option (Result A) × Panel → Option (Result B) × Panel
bound f o =
    let (r, p) = o in
    elim r [ none ↦ (none, p) | some (ok a) ↦ f a p | some (raise e) ↦ (some (raise e), p) ]

infixl 5 ◌>>=◌ ◌>>◌
unfoldable pub ◌>>=◌ : {A B : Type 0} → Call A → (A → Call B) → Call B
◌>>=◌ m f p = bound f (m p)

abbrev pub ◌>>◌ : {B : Type 0} → Call (Unit {0}) → Call B → Call B
m >> k = m >>= λ _. k

-- if b: m
abbrev pub when : Bool → Call (Unit {0}) → Call (Unit {0})
when true m = m
when false m = pure tt

-- the arguments of a call
pub record Chat : Type 0 where
  pub request_id : String
  pub key_hash : String
  pub agent_type : String
  pub protocol : String
  pub model : String
  pub body : Fields

module _ (s : Setup) where
  found : Chat → Result (Option ResolvedModel) → Result ResolvedModel
  found c (raise e) = raise e
  found c (ok none) =
      raise (app (not_found_error ("Model not found: " +s c.model) none (some c.request_id)))
  found c (ok (some resolved)) = ok resolved

  -- manager.resolve(model, key_hash), or the NotFoundError
  unfoldable pub find_model : Chat → Call ResolvedModel
  unfolding found
  find_model c p =
      lift (found c (resolve (to_str s.codec) c.model (some c.key_hash) p.world.manager)) p

  -- `_do_request` with an attempt for each key, and one at least
  unfoldable pub request : Task → Call (Value × ℕ)
  request t p =
      let fuel = suc (length (active_keys t.resolved.provider_id p.world.manager)) in
      let (r, w) = do_request fuel s.env t 0 p.world in (r, record p { world = w })

  -- `_record_db_usage`: four attempts are enough
  unfoldable pub record_row : UsageRow → Call (Unit {0})
  record_row row p = elim (record_db_usage 4 (s.db p.sessions) row 0 p.usage) [
    | none ↦ (none, p)
    | some rows ↦ (some (ok tt), record p { usage = rows; sessions = suc p.sessions })
  ]

  -- the row of a call that costs nothing
  unfoldable pub free_row : Chat → ResolvedModel → Bool → Bool → Panel → UsageRow
  free_row c resolved price_known cache_hit p = record {
    agent_type = c.agent_type;
    provider_id = some resolved.provider_id;
    model_id = resolved.model_id;
    tokens_in = pos 0;
    tokens_out = pos 0;
    cost_usd = pos 0;
    is_free = is_free_model (some resolved);
    unlimited = is_unlimited_model (some resolved);
    price_known = price_known;
    cache_hit = cache_hit;
    created_at = s.utcnow p.sessions;
  }

  -- a read of the cache, by one of its slots
  unfoldable pub read_cache :
      (ℕ → CacheService → Option String × CacheService) → Call (Option String)
  unfolding monotonic
  read_cache slot p =
      let (now, w) = monotonic s.env p.world in
      let (v, cache) = slot now p.cache in (some (ok v), record p { world = w; cache = cache })

  unfoldable pub stored : Panel → Result CacheService → Option (Result (Unit {0})) × Panel
  stored p (ok cache) = (some (ok tt), record p { cache = cache })
  stored p (raise e) = (some (raise e), p)

  -- a write
  unfoldable pub write_cache : (ℕ → CacheService → Result CacheService) → Call (Unit {0})
  unfolding monotonic stored
  write_cache slot p =
      let (now, w) = monotonic s.env p.world in stored (record p { world = w }) (slot now p.cache)

-- the temperature of a key
unfoldable pub temperature_of : Value → Option Value
temperature_of v = if is_null v then none else some v

-- temperature in (None, 0, 0.0)
unfoldable pub is_cold : Value → Bool
is_cold v = is_null v || eq_value v (int (pos 0))

-- bool(resolved.pricing)
unfoldable pub has_pricing : ResolvedModel → Bool
has_pricing resolved = elim resolved.pricing [
  | none ↦ false
  | some [] ↦ false
  | some (x ∷ xs) ↦ true
]
