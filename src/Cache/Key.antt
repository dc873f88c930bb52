-- ===== src/Cache/Key.antt =====
-- `_key`, `get`, `set`, `get_stream` and `set_stream` of app/services/cache.py: how a request is
-- keyed, and the two slots.
pub mod Slots
use demumumind_panel.Shared.{ℕ, String, Option, none, some, if◌then◌else◌}
use demumumind_panel.Text.{◌+s◌, or_text, prefix_of}
use demumumind_panel.Errors.{Result}
use demumumind_panel.Cache.{CacheService, get, set}
use demumumind_panel.Json.{Value, truthy}

-- `hashlib.sha256(…).hexdigest()`, `hmac.new(…).hexdigest()`, `json.dumps(…, sort_keys=True)` and
-- the format `.4f` are functions on texts here.
pub record Digests : Type 0 where
  pub sha256 : String → String
  pub hmac_sha256 : String → String → String
  pub dumps_sorted : Value → String
  pub fixed_4 : Value → String

module _ (d : Digests) (panel_key : String) where
  -- `json.dumps(tools, sort_keys=True) if tools else ""`
  tools_json : Value → String
  unfolding truthy
  tools_json tools = if truthy tools then d.dumps_sorted tools else ""

  temp_str : Option Value → String
  temp_str none = "none"
  temp_str (some t) = d.fixed_4 t

  unfoldable pub tenant : String → String
  tenant key_hash = prefix_of 8 (or_text key_hash "panel")

  unfoldable pub raw_key : String → String → Option Value → Value → String → String
  unfolding tools_json temp_str
  raw_key user_model_id prompt temperature tools key_hash =
      tenant key_hash
      +s ":"
      +s user_model_id
      +s ":"
      +s prefix_of 32 (d.hmac_sha256 panel_key prompt)
      +s ":"
      +s temp_str temperature
      +s ":"
      +s prefix_of 16 (d.sha256 (tools_json tools))

  -- the key of the JSON slot
  unfoldable pub key : String → String → Option Value → Value → String → String
  key user_model_id prompt temperature tools key_hash =
      d.sha256 (raw_key user_model_id prompt temperature tools key_hash)

  -- the key of the SSE slot
  unfoldable pub stream_key : String → String → Option Value → Value → String → String
  stream_key user_model_id prompt temperature tools key_hash =
      "stream:" +s key user_model_id prompt temperature tools key_hash

  -- `get`
  unfoldable pub get_cached :
      ℕ
      → String
      → String
      → Option Value
      → Value
      → String
      → CacheService
      → Option String × CacheService
  get_cached now user_model_id prompt temperature tools key_hash c =
      get now (key user_model_id prompt temperature tools key_hash) c

  -- `set`
  unfoldable pub set_cached :
      ℕ
      → String
      → String
      → Option Value
      → Value
      → String
      → String
      → CacheService
      → Result CacheService
  set_cached now user_model_id prompt temperature tools value key_hash c =
      set now (key user_model_id prompt temperature tools key_hash) value c

  -- `get_stream`
  unfoldable pub get_stream :
      ℕ
      → String
      → String
      → Option Value
      → Value
      → String
      → CacheService
      → Option String × CacheService
  get_stream now user_model_id prompt temperature tools key_hash c =
      get now (stream_key user_model_id prompt temperature tools key_hash) c

  -- `set_stream`
  unfoldable pub set_stream :
      ℕ
      → String
      → String
      → Option Value
      → Value
      → String
      → String
      → CacheService
      → Result CacheService
  set_stream now user_model_id prompt temperature tools value key_hash c =
      set now (stream_key user_model_id prompt temperature tools key_hash) value c
