-- ===== src/Translate/RoundTrip.antt =====
-- Chats that go from OpenAI's form to Anthropic's and back, by app/services/translate.py.
use demumumind_panel.Shared.{String, ◌≡◌, true, List, map, All}
use demumumind_panel.Text.{nonempty}
use demumumind_panel.Json.{Value, truthy}
use demumumind_panel.Errors.{ok, ◌>>=◌}
use demumumind_panel.Translate.Values.{Codec}
use demumumind_panel.Translate.Anthropic.{anthropic_messages, openai_to_anthropic}
use demumumind_panel.Translate.Anthropic.Chats.{anthropic_messages-chat, openai_to_anthropic-chat}
use demumumind_panel.Translate.OpenAi.{openai_messages, anthropic_to_openai}
use demumumind_panel.Translate.OpenAi.Chats.{openai_messages-chat, anthropic_to_openai-chat}
use demumumind_panel.Translate.Turns.{openai_body, Turn, TurnIsReadable, openai_turn}

-- Whatever `dumps` and `loads` are: a chat of questions, answers, tool calls whose arguments
-- `loads` reads back, and tool results is turned into Anthropic's messages and back into the same
-- messages, without an exception.
pub round_trip :
    (c : Codec) (ts : List Turn)
    → All (TurnIsReadable c) ts
    → (anthropic_messages c (map (openai_turn c) ts) >>= openai_messages c)
      ≡ ok (map (openai_turn c) ts)
round_trip c ts h = rw (anthropic_messages-chat c ts h) (openai_messages-chat c ts)

-- Whatever `dumps` and `loads` are: of a request's body with a model, a system prompt that is not
-- empty, a max_tokens that is true, and a chat of questions, answers, tool calls whose arguments
-- `loads` reads back, and tool results, `openai_to_anthropic` makes a body that
-- `anthropic_to_openai` turns back into the same body. Neither raises.
pub anthropic_to_openai-openai_to_anthropic :
    (c : Codec) (model s : String) (ts : List Turn) (max_tokens : Value)
    → nonempty s ≡ true
    → truthy max_tokens ≡ true
    → All (TurnIsReadable c) ts
    → (openai_to_anthropic c (openai_body c model s ts max_tokens) >>= anthropic_to_openai c)
      ≡ ok (openai_body c model s ts max_tokens)
anthropic_to_openai-openai_to_anthropic c model s ts max_tokens some positive h =
    rw (openai_to_anthropic-chat c model s ts max_tokens some positive h)
      (anthropic_to_openai-chat c model s ts max_tokens some positive)
