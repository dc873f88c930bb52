-- ===== src/Translate.antt =====
-- app/services/translate.py: the names of the protocols.
pub mod Values
pub mod Content
pub mod Anthropic
pub mod OpenAi
pub mod Gemini
pub mod FromGemini
pub mod Cohere
pub mod Ollama
pub mod Responses
pub mod Route
pub mod Turns
pub mod RoundTrip
mod Examples
use demumumind_panel.Shared.{String, Bool, List, [], ◌∷◌, ◌==◌, any, if◌then◌else◌}
use demumumind_panel.Text.{lower, strip}

-- x in (a, b, …)
abbrev one_of : List String → String → Bool
one_of names x = any (λ name. name == x) names

-- `normalize_protocol`
unfoldable pub normalize_protocol : String → String
unfolding lower strip
normalize_protocol protocol =
    let p = lower (strip protocol) in
    if one_of ("google" ∷ "vertex" ∷ []) p
    then "gemini"
    else if one_of ("azure" ∷ "mistral" ∷ "xai" ∷ "groq" ∷ "together" ∷ "deepseek" ∷ []) p
    then "openai"
    else p
