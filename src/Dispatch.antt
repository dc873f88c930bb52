-- ===== src/Dispatch.antt =====
-- app/services/dispatch.py: one LLM call from end to end. This file has the parts of the world that
-- a call reads and changes, and its small helpers; the children follow the functions.
pub mod Usage
pub mod Cost
pub mod Request
pub mod Prompt
pub mod Call
pub mod Samples
pub mod Image
pub mod Chat
pub mod StreamUsage
pub mod Stream
mod Examples
use demumumind_panel.Shared.{
  ℕ, suc, ◌+◌, String, Bool, true, false, Option, none, some, List, [], ◌∷◌, ◌==◌, if◌then◌else◌,
}
use demumumind_panel.Text.{◌+s◌, or_text, join, prefix_of}
use demumumind_panel.Json.{Value, Fields, str, list, dict, end, to_list, get, truthy}
use demumumind_panel.Translate.{normalize_protocol}
use demumumind_panel.Pool.{Endpoint, HttpRequest, Reply}
use demumumind_panel.Manager.{ResolvedModel, Manager, present}

-- What lies outside: the clock, by the number of its reading, the length of a second on it, and the
-- HTTP client, whose answer may depend on what was sent before, the last request first.
pub record Env : Type 0 where
  pub clock : ℕ → ℕ
  pub second : ℕ
  pub client : List HttpRequest → HttpRequest → Reply

pub record World : Type 0 where
  pub manager : Manager
  pub sent : List HttpRequest
  pub readings : ℕ

-- `time.monotonic()`
unfoldable pub monotonic : Env → World → ℕ × World
monotonic env w = (env.clock w.readings, record w { readings = w.readings + 1 })

-- a call of the client
unfoldable pub send : Env → HttpRequest → World → Reply × World
send env r w = (env.client w.sent r, record w { sent = r ∷ w.sent })

-- `_provider_path`
unfoldable pub provider_path : String → String → String
provider_path protocol model =
    let proto = normalize_protocol protocol in
    if proto == "anthropic"
    then "v1/messages"
    else if proto == "gemini"
    then "v1beta/models/" +s model +s ":generateContent"
    else if proto == "cohere"
    then "v2/chat"
    else if proto == "ollama"
    then "api/chat"
    else "chat/completions"

-- the text of a block of a list content, `str` of other values being a parameter
block_text : (Value → String) → Value → List String → List String
block_text to_str (dict block) parts =
    if truthy (get "text" block)
    then elim (get "text" block) [ str s ↦ s | v ↦ to_str v ] ∷ parts
    else parts
block_text to_str (str s) parts = parts
block_text to_str _ parts = parts

block_texts : (Value → String) → List Value → List String → List String
unfolding block_text
block_texts to_str [] parts = parts
block_texts to_str (b ∷ bs) parts = block_text to_str b (block_texts to_str bs parts)

content_texts : (Value → String) → Value → List String → List String
unfolding block_texts
content_texts to_str (str s) parts = s ∷ parts
content_texts to_str (list blocks) parts = block_texts to_str (to_list blocks) parts
content_texts to_str _ parts = parts

message_texts : (Value → String) → List Fields → List String
unfolding content_texts
message_texts to_str [] = []
message_texts to_str (m ∷ ms) = content_texts to_str (get "content" m) (message_texts to_str ms)

-- `_extract_prompt`
unfoldable pub extract_prompt : (Value → String) → List Fields → String
unfolding message_texts
extract_prompt to_str messages = prefix_of 8000 (join "\n" (message_texts to_str messages))

-- `api_key or resolved.api_key`
unfoldable pub key_or : Option String → Option String → Option String
key_or key fallback = if present key then key else fallback

-- `_to_provider`
unfoldable pub to_provider : ResolvedModel → Option String → Endpoint
to_provider resolved api_key = record {
  id = resolved.provider_id;
  name = resolved.provider_name;
  base_url = resolved.base_url;
  api_key = key_or api_key resolved.api_key;
  protocol = resolved.protocol;
}
