-- ===== src/Translate/Cohere.antt =====
-- app/services/translate.py: Cohere's requests and responses, and what they share with Ollama's.
use demumumind_panel.Shared.{String, ◌&&◌, ◌||◌, not, List, [], ◌∷◌, ◌==◌, if◌then◌else◌, pos}
use demumumind_panel.Text.{lower}
use demumumind_panel.Json.{
  Value, bool, int, str, list, dict, nil, Fields, end, field, to_list, of_list, get, get_or, has,
  set, truthy, or_value, is_null,
}
use demumumind_panel.Errors.{Result, ok, ◌>>=◌}
use demumumind_panel.Translate.Values.{
  Codec, as_dict, is_text, iterate_of, traverse, copy, concat_text, add_value, no_attribute, text,
  single,
}
use demumumind_panel.Translate.Anthropic.{set_stop}

-- copying the keys that are not None
copy_all : List String → Fields → Fields → Fields
copy_all [] body out = out
copy_all (k ∷ ks) body out = copy_all ks body (copy k k body out)

cohere_keys : List String
cohere_keys =
    "temperature" ∷ "max_tokens" ∷ "stop_sequences" ∷ "p" ∷ "k" ∷ "seed" ∷ "frequency_penalty"
    ∷ "presence_penalty" ∷ "response_format" ∷ "thinking" ∷ []

top_p : Fields → Fields → Fields
top_p body out =
    if not (is_null (get "top_p" body)) && not (has "p" out)
    then set "p" (get "top_p" body) out
    else out

tool_choice : Value → Fields → Fields
tool_choice (dict d) out =
    if is_text "function" (get "type" d) then set "tool_choice" (str "REQUIRED") out else out
tool_choice (str s) out = if s == "none" then set "tool_choice" (str "NONE") out else out
tool_choice _ out = out

-- if d.get(k): out[k] = d[k]
unfoldable pub copy_true : String → Fields → Fields → Fields
copy_true k d out = if truthy (get k d) then set k (get k d) out else out

-- `openai_to_cohere`
unfoldable pub openai_to_cohere : Fields → Fields
unfolding copy_all cohere_keys top_p tool_choice copy_true
openai_to_cohere body =
    let out =
      field "model" (get_or "model" (str "") body)
        (field "messages" (or_value (get "messages" body) (list nil)) end) in
    let copied = top_p body (set_stop (get "stop" body) (copy_all cohere_keys body out)) in
    set "stream" (bool (truthy (get "stream" body)))
      (tool_choice (get "tool_choice" body) (copy_true "tools" body copied))

-- the text of the blocks, after the text so far
cohere_text : String → List Value → Result String
unfolding concat_text
cohere_text s [] = ok s
cohere_text s (dict b ∷ bs) = do
  t ← (if is_text "text" (get "type" b) then concat_text s (get_or "text" (str "") b) else ok s)
  cohere_text t bs
cohere_text s (str t ∷ bs) = cohere_text s bs
cohere_text s (_ ∷ bs) = cohere_text s bs

text_of_content : Value → Result String
unfolding cohere_text
text_of_content (list blocks) = cohere_text "" (to_list blocks)
text_of_content (str s) = ok s
text_of_content _ = ok ""

-- args if isinstance(args, str) else json.dumps(args or {})
unfoldable pub arguments : Codec → Value → Value
arguments c (str s) = str s
arguments c v = str (c.dumps (or_value v (dict end)))

-- a tool call under an id
unfoldable pub function_call : Codec → Value → Fields → Value
unfolding arguments
function_call c id fn = dict (
    field "id" id (
      text "type" "function" (
        field "function"
          (dict (
            field "name" (get_or "name" (str "") fn)
              (field "arguments" (arguments c (get "arguments" fn)) end)))
          end)))

-- A call that is no dict raises at its `get`, after the function's, which is read from {}.
cohere_call : Codec → Value → Result Value
unfolding as_dict
cohere_call c v = do
  tc ← as_dict v
  fn ← as_dict (get_or "function" (dict end) tc)
  ok (function_call c (get_or "id" (str "") tc) fn)

-- {"role": "assistant", "content": content} with the tool calls, if there are any
unfoldable pub assistant : Value → List Value → Value
assistant content [] = dict (text "role" "assistant" (field "content" content end))
assistant content (t ∷ ts) = dict (
    text "role" "assistant"
      (field "content" content (field "tool_calls" (list (of_list (t ∷ ts))) end)))

-- [{"index": 0, "message": message, "finish_reason": reason}]
unfoldable pub choices : Value → Value → Value
choices message reason = single (
    dict (field "index" (int (pos 0)) (field "message" message (field "finish_reason" reason end))))

-- the "usage" of a response
unfoldable pub usage : Value → Value → Value → Value
usage prompt completion total = dict (
    field "prompt_tokens" prompt
      (field "completion_tokens" completion (field "total_tokens" total end)))

-- v.lower()
unfoldable pub lower_of : Value → Result String
unfolding no_attribute
lower_of (str s) = ok (lower s)
lower_of v = no_attribute "lower" v

unfoldable pub cohere_finish : String → String
cohere_finish fr =
    if fr == "stop_sequence" || fr == "complete"
    then "stop"
    else if fr == "max_tokens"
    then "length"
    else if fr == "tool_call"
    then "tool_calls"
    else fr

-- the number of tokens under a key
unfoldable pub count : String → Fields → Value
count k d = get_or k (int (pos 0)) d

-- `cohere_to_openai`
unfoldable pub cohere_to_openai : Codec → Fields → Result Fields
unfolding text_of_content cohere_call
cohere_to_openai c body = do
  message ← as_dict (or_value (get "message" body) (dict end))
  s ← text_of_content (get "content" message)
  calls ← iterate_of "tool_calls" message
  tool_calls ← traverse (cohere_call c) calls
  fr ← lower_of (or_value (get "finish_reason" body) (str "COMPLETE"))
  u ← as_dict (or_value (get "usage" body) (dict end))
  tokens ← as_dict (or_value (get "tokens" u) (dict end))
  total ← add_value (count "input_tokens" tokens) (count "output_tokens" tokens)
  ok (
      field "choices" (choices (assistant (str s) tool_calls) (str (cohere_finish fr))) (
        field "usage" (usage (count "input_tokens" tokens) (count "output_tokens" tokens) total)
          end))
