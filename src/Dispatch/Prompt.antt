-- ===== src/Dispatch/Prompt.antt =====
-- The texts that app/services/dispatch.py hands to the guardrails: the prompt of a body, and the
-- content of the first choice of an answer.
use demumumind_panel.Shared.{String, [], ◌∷◌}
use demumumind_panel.Json.{Value, list, dict, nil, cons, Fields, end, field, get, null, or_value}
use demumumind_panel.Errors.{Result, ok, ◌>>=◌}
use demumumind_panel.Translate.Values.{Codec, to_str, iterate_of, traverse, as_dict, get_of, text}
use demumumind_panel.Translate.Responses.{first_of}
use demumumind_panel.Dispatch.{extract_prompt}

-- `_extract_prompt(body.get("messages") or [])`
unfoldable pub prompt_of : Codec → Fields → Result String
prompt_of c body = do
  vs ← iterate_of "messages" body
  messages ← traverse as_dict vs
  ok (extract_prompt (to_str c) messages)

-- (output.get("choices") or [{}])[0].get("message", {}).get("content")
unfoldable pub choice_content : Fields → Result Value
choice_content output = do
  choice ← first_of (or_value (get "choices" output) (list (cons (dict end) nil)))
  message ← get_of "message" (dict end) choice
  get_of "content" null message

-- the text of an answer, as `_extract_prompt` takes it from a message with its content
unfoldable pub answer_text : Codec → Value → String
answer_text c content =
    extract_prompt (to_str c) (text "role" "assistant" (field "content" content end) ∷ [])
