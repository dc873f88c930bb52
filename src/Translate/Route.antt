-- ===== src/Translate/Route.antt =====
-- app/services/translate.py: `translate_request` and `translate_response`.
pub mod Laws
pub mod Choices
use demumumind_panel.Shared.{String, Bool, true, false, ◌&&◌, ◌==◌, if◌then◌else◌}
use demumumind_panel.Json.{Value, str, Fields, set}
use demumumind_panel.Errors.{Result, ok, ◌>>=◌}
use demumumind_panel.Translate.Values.{Codec}
use demumumind_panel.Translate.{normalize_protocol}
use demumumind_panel.Translate.Anthropic.{openai_to_anthropic}
use demumumind_panel.Translate.OpenAi.{anthropic_to_openai}
use demumumind_panel.Translate.Gemini.{openai_to_gemini}
use demumumind_panel.Translate.FromGemini.{gemini_to_openai}
use demumumind_panel.Translate.Cohere.{openai_to_cohere, cohere_to_openai}
use demumumind_panel.Translate.Ollama.{openai_to_ollama, ollama_to_openai}
use demumumind_panel.Translate.Responses.{anthropic_response, gemini_response}

-- the translation of a request between two protocols, by their normal names
unfoldable pub convert_request : Codec → String → String → Fields → Result Fields
convert_request c src dst body =
    if src == "openai" && dst == "anthropic"
    then openai_to_anthropic c body
    else if src == "openai" && dst == "gemini"
    then openai_to_gemini c body
    else if src == "openai" && dst == "cohere"
    then ok (openai_to_cohere body)
    else if src == "openai" && dst == "ollama"
    then openai_to_ollama body
    else if src == "anthropic" && dst == "openai"
    then anthropic_to_openai c body
    else if src == "gemini" && dst == "openai"
    then gemini_to_openai c body
    else if src == "cohere" && dst == "openai"
    then cohere_to_openai c body
    else if src == "ollama" && dst == "openai"
    then ollama_to_openai c body
    else if src == "anthropic" && dst == "gemini"
    then (anthropic_to_openai c body >>= openai_to_gemini c)
    else if src == "gemini" && dst == "anthropic"
    then (gemini_to_openai c body >>= openai_to_anthropic c)
    else if src == "cohere" && dst == "anthropic"
    then (cohere_to_openai c body >>= openai_to_anthropic c)
    else if src == "anthropic" && dst == "cohere"
    then (anthropic_to_openai c body >>= (λ b. ok (openai_to_cohere b)))
    else if src == "cohere" && dst == "gemini"
    then (cohere_to_openai c body >>= openai_to_gemini c)
    else if src == "gemini" && dst == "cohere"
    then (gemini_to_openai c body >>= (λ b. ok (openai_to_cohere b)))
    else if src == "ollama" && dst == "anthropic"
    then (ollama_to_openai c body >>= openai_to_anthropic c)
    else if src == "anthropic" && dst == "ollama"
    then (anthropic_to_openai c body >>= openai_to_ollama)
    else if src == "ollama" && dst == "gemini"
    then (ollama_to_openai c body >>= openai_to_gemini c)
    else if src == "gemini" && dst == "ollama"
    then (gemini_to_openai c body >>= openai_to_ollama)
    else if src == "cohere" && dst == "ollama"
    then (cohere_to_openai c body >>= openai_to_ollama)
    else if src == "ollama" && dst == "cohere"
    then (ollama_to_openai c body >>= (λ b. ok (openai_to_cohere b)))
    else ok body

-- `translate_request`
unfoldable pub translate_request : Codec → String → String → Fields → String → Result Fields
translate_request c protocol_from protocol_to body model =
    let src = normalize_protocol protocol_from in
    let dst = normalize_protocol protocol_to in
    if src == dst
    then ok (set "model" (str model) body)
    else (convert_request c src dst body >>= λ out. ok (set "model" (str model) out))

-- `_TO_OPENAI`, and the body itself of another protocol
unfoldable pub to_openai : Codec → String → Fields → Result Fields
to_openai c src body =
    if src == "anthropic"
    then anthropic_response c body
    else if src == "gemini"
    then gemini_response c body
    else if src == "cohere"
    then cohere_to_openai c body
    else if src == "ollama"
    then ollama_to_openai c body
    else ok body

-- `_FROM_OPENAI`, and the response itself for another protocol
unfoldable pub from_openai : Codec → String → Fields → Result Fields
from_openai c dst canonical =
    if dst == "anthropic"
    then openai_to_anthropic c canonical
    else if dst == "gemini"
    then openai_to_gemini c canonical
    else if dst == "cohere"
    then ok (openai_to_cohere canonical)
    else if dst == "ollama"
    then openai_to_ollama canonical
    else ok canonical

-- `translate_response`
unfoldable pub translate_response : Codec → String → String → Fields → Result Fields
translate_response c protocol_from protocol_to body =
    let src = normalize_protocol protocol_from in
    let dst = normalize_protocol protocol_to in
    if src == dst then ok body else (do
      canonical ← (if src == "openai" then ok body else to_openai c src body)
      if dst == "openai" then ok canonical else from_openai c dst canonical)
