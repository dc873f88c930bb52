-- ===== src/Translate/Examples.antt =====
-- Runs of the translations, and the theorems there.
use demumumind_panel.Text.{join}
use demumumind_panel.Translate.Anthropic.{set_stop}
use demumumind_panel.Translate.Anthropic.{set_tools}
use demumumind_panel.Translate.Anthropic.{system_text}
use demumumind_panel.Translate.Route.{convert_request}
use demumumind_panel.Translate.Values.{copy}
use demumumind_panel.Translate.Values.{set_text}
use demumumind_panel.Shared.{◌≡◌, refl, true, List, [], ◌∷◌, map, All, pos}
use demumumind_panel.Text.{nonempty}
use demumumind_panel.Json.{
  Value, str, int, list, dict, nil, cons, Fields, end, field, set, to_list, of_list, truthy,
}
use demumumind_panel.Errors.{ok, ◌>>=◌}
use demumumind_panel.Translate.{normalize_protocol}
use demumumind_panel.Translate.Values.{Codec, is_text, iterate_of, traverse_all, chat_role}
use demumumind_panel.Translate.Content.{content_blocks, is_image, text_of}
use demumumind_panel.Translate.Anthropic.{message, anthropic_messages, openai_to_anthropic}
use demumumind_panel.Translate.Anthropic.Roles.{speaks, anthropic_messages-speak}
use demumumind_panel.Translate.OpenAi.{anthropic_to_openai}
use demumumind_panel.Translate.Turns.{
  Call, Turn, asked, answered, called, returned, TurnIsReadable, openai_turn, anthropic_turn,
  openai_body,
}
use demumumind_panel.Translate.RoundTrip.{anthropic_to_openai-openai_to_anthropic}
use demumumind_panel.Translate.Anthropic.Chats.{anthropic_messages-chat}
use demumumind_panel.Translate.Route.{translate_request, translate_response}
use demumumind_panel.Translate.Route.Laws.{translate_response-choices}

vertex_run : normalize_protocol " Vertex" ≡ "gemini"
unfolding normalize_protocol
vertex_run = refl

cohere_run : normalize_protocol "Cohere" ≡ "cohere"
unfolding normalize_protocol
cohere_run = refl

abbrev arguments : Value
arguments = dict (field "city" (str "Paris") end)

-- The only arguments here are those of one call.
abbrev codec : Codec
codec = record {
  dumps = λ v. "{\"city\": \"Paris\"}";
  loads = λ s. ok arguments;
  repr = λ v. "{'city': 'Paris'}";
}

abbrev call : Call
call = record { id = "c1"; name = "weather"; input = arguments }

abbrev chat : List Turn
chat = asked "Paris?" ∷ called "" call [] ∷ returned "c1" "sunny" ∷ answered "Sunny." ∷ []

readable : All (TurnIsReadable codec) chat
unfolding nonempty
readable = (tt, (((refl, refl), tt), (tt, (tt, tt))))

system_given : nonempty "Be brief." ≡ true
unfolding nonempty
system_given = refl

some_tokens : truthy (int (pos 100)) ≡ true
unfolding truthy
some_tokens = refl

anthropic_to_openai-openai_to_anthropic_example :
    (openai_to_anthropic codec (openai_body codec "gpt" "Be brief." chat (int (pos 100)))
      >>= anthropic_to_openai codec)
    ≡ ok (openai_body codec "gpt" "Be brief." chat (int (pos 100)))
anthropic_to_openai-openai_to_anthropic_example =
    anthropic_to_openai-openai_to_anthropic codec "gpt" "Be brief." chat (int (pos 100))
      system_given some_tokens readable

anthropic_messages-speak_example : All (λ m. speaks m ≡ true) (map anthropic_turn chat)
anthropic_messages-speak_example =
    anthropic_messages-speak codec (map (openai_turn codec) chat) (map anthropic_turn chat)
      (anthropic_messages-chat codec chat readable)

abbrev body : Fields
body =
    field "model" (str "alias")
      (field "messages" (list (cons (message (str "user") (str "hi")) nil)) end)

abbrev translated : Fields
translated = field "model" (str "claude") (
    field "messages" (list (cons (message (str "user") (str "hi")) nil))
      (field "max_tokens" (int (pos 4096)) end))

translated_run : translate_request codec "openai" "anthropic" body "claude" ≡ ok translated
unfolding translate_request system_text is_image join set_stop content_blocks is_text to_list
    set_tools copy normalize_protocol openai_to_anthropic convert_request set_text traverse_all
    iterate_of anthropic_messages set of_list chat_role text_of
translated_run = refl

translate_response-choices_example :
    (translate_response codec "openai" "anthropic" (set "choices" (list nil) body)
      ≡ translate_response codec "openai" "anthropic" body)
    × (translate_response codec "openai" "gemini" (set "choices" (list nil) body)
        ≡ translate_response codec "openai" "gemini" body)
translate_response-choices_example = translate_response-choices codec (list nil) body
