-- ===== src/Translate/Responses.antt =====
-- app/services/translate.py: the responses of Anthropic and Gemini in OpenAI's form.
use demumumind_panel.Shared.{String, List, [], ◌∷◌, ◌++◌, map, if◌then◌else◌}
use demumumind_panel.Text.{join}
use demumumind_panel.Json.{
  Value, null, str, list, dict, nil, cons, Fields, end, to_list, get, get_or, has, set, delete,
  truthy, or_value,
}
use demumumind_panel.Errors.{Result, ok, raise, other, ◌>>=◌}
use demumumind_panel.Translate.Values.{
  Codec, as_dict, get_of, iterate, dicts, add_value, concat_text, type_error,
}
use demumumind_panel.Translate.Content.{text_of}
use demumumind_panel.Translate.OpenAi.{typed, tool_call, tool_call_of_use}
use demumumind_panel.Translate.Cohere.{assistant, choices, usage, count}

anthropic_text : Codec → Value → String
anthropic_text c (list blocks) =
    join "\n" (map (λ b. text_of c (get "text" b)) (typed "text" (to_list blocks)))
anthropic_text c v = text_of c v

anthropic_calls : Codec → Value → List Value
anthropic_calls c (list blocks) = map (tool_call_of_use c) (typed "tool_use" (to_list blocks))
anthropic_calls c (str s) = []
anthropic_calls c _ = []

-- `_anthropic_response_to_openai`
unfoldable pub anthropic_response : Codec → Fields → Result Fields
unfolding anthropic_text anthropic_calls
anthropic_response c body = do
  let content = get "content" body
  let reply = assistant (str (anthropic_text c content)) (anthropic_calls c content)
  u ← as_dict (or_value (get "usage" body) (dict end))
  total ← add_value (count "input_tokens" u) (count "output_tokens" u)
  let out = set "choices" (choices reply (get_or "stop_reason" (str "stop") body)) body
  ok (
      delete "content"
        (set "usage" (usage (count "input_tokens" u) (count "output_tokens" u) total) out))

-- candidates[0], for candidates that are true
unfoldable pub first_of : Value → Result Value
first_of (list (cons v vs)) = ok v
first_of (str s) = elim (iterate (str s)) [ ok (ch ∷ chs) ↦ ok ch | _ ↦ ok null ]
first_of (dict d) = raise (other "KeyError" "0")
first_of v = type_error "object is not subscriptable"

candidate_parts : Value → Result (List Value)
unfolding first_of
candidate_parts v =
    if truthy v
    then (do
      candidate ← first_of v
      content ← get_of "content" (dict end) candidate
      parts ← get_of "parts" null content
      iterate (or_value parts (list nil)))
    else ok []

gemini_call : Codec → Fields → Value
gemini_call c fc =
    tool_call (get_or "name" (str "") fc) (get_or "name" (str "") fc)
      (c.dumps (get_or "args" (dict end) fc))

-- one part, after the text and the tool calls so far
gemini_step : Codec → Fields → String → List Value → Result (String × List Value)
unfolding gemini_call
gemini_step c p s calls =
    if has "text" p
    then (do t ← concat_text s (get_or "text" (str "") p); ok (t, calls))
    else if has "functionCall" p
    then (do fc ← as_dict (get "functionCall" p); ok (s, calls ++ gemini_call c fc ∷ []))
    else ok (s, calls)

gemini_parts : Codec → List Fields → String → List Value → Result (String × List Value)
unfolding gemini_step
gemini_parts c [] s calls = ok (s, calls)
gemini_parts c (p ∷ ps) s calls = do
  (s', calls') ← gemini_step c p s calls
  gemini_parts c ps s' calls'

-- `_gemini_response_to_openai`
unfoldable pub gemini_response : Codec → Fields → Result Fields
unfolding candidate_parts gemini_parts
gemini_response c body = do
  parts ← candidate_parts (get "candidates" body)
  (s, calls) ← gemini_parts c (dicts parts) "" []
  u ← as_dict (or_value (get "usageMetadata" body) (dict end))
  ok (
      set "usage"
        (usage (count "promptTokenCount" u) (count "candidatesTokenCount" u)
          (count "totalTokenCount" u))
        (set "choices" (choices (assistant (str s) calls) (str "stop")) body))
