-- ===== src/Translate/Ollama.antt =====
-- app/services/translate.py: Ollama's requests and responses.
use demumumind_panel.Shared.{String, List, [], ◌∷◌, ◌++◌, keep, if◌then◌else◌}
use demumumind_panel.Text.{nonempty, starts_with, partition}
use demumumind_panel.Json.{
  Value, bool, str, list, dict, nil, Fields, end, field, to_list, of_list, get, get_or, set, truthy,
  or_value,
}
use demumumind_panel.Errors.{Result, ok, raise, other, ◌>>=◌}
use demumumind_panel.Translate.Values.{
  Codec, as_dict, is_text, iterate_of, traverse, copy, add_value, no_attribute, join_values,
}
use demumumind_panel.Translate.Cohere.{
  copy_true, function_call, assistant, choices, usage, lower_of, count,
}

-- the texts and the images of a list content
pub record Parts : Type 0 where
  pub texts : List Value
  pub images : List Value

-- url.split(",", 1)[-1] if it is a data URL with a comma
image_of_url : Value → Result Value
unfolding starts_with partition no_attribute
image_of_url (str url) =
    let (header, found, b64) = partition b',' url in
    ok (str (if starts_with url "data:" then (if found then b64 else url) else url))
image_of_url v = no_attribute "startswith" v

url_of : Value → Value
url_of (dict iu) = get_or "url" (str "") iu
url_of (str s) = str ""
url_of _ = str ""

add_part : Value → Parts → Result Parts
unfolding image_of_url url_of
add_part (dict b) r =
    if is_text "text" (get "type" b)
    then ok (record r { texts = r.texts ++ get_or "text" (str "") b ∷ [] })
    else if is_text "image_url" (get "type" b)
    then (do
      image ← image_of_url (url_of (get "image_url" b))
      ok (record r { images = r.images ++ image ∷ [] }))
    else ok r
add_part (str s) r = ok r
add_part _ r = ok r

split_parts : List Value → Parts → Result Parts
unfolding add_part
split_parts [] r = ok r
split_parts (b ∷ bs) r = do r' ← add_part b r; split_parts bs r'

set_images : List Value → Fields → Fields
set_images [] m = m
set_images (i ∷ is) m = set "images" (list (of_list (i ∷ is))) m

-- one message
unfoldable pub ollama_message : Fields → Result Value
unfolding split_parts set_images
ollama_message m = elim (get "content" m) [
  | list blocks ↦ do
    parts ← split_parts (to_list blocks) (record { texts = []; images = [] })
    content ← join_values "\n" (keep truthy parts.texts)
    ok (dict (set_images parts.images (set "content" (str content) m)))
  | _ ↦ ok (dict m)
]

-- dict(v); a list of pairs, which `dict` would take, counts as no dict
dict_of : Value → Result Fields
dict_of (dict d) = ok d
dict_of (list nil) = ok end
dict_of (str s) =
    if nonempty s
    then raise
        (other "ValueError" "dictionary update sequence element #0 has length 1; 2 is required")
    else ok end
dict_of v = raise (other "TypeError" "object is not iterable")

options : Fields → Fields
options body = copy "frequency_penalty" "repeat_penalty" body (
    copy "max_tokens" "num_predict" body (
      copy "seed" "seed" body
        (copy "top_p" "top_p" body (copy "temperature" "temperature" body end))))

set_options : Fields → Fields → Fields
set_options end out = out
set_options (field k v d) out = set "options" (dict (field k v d)) out

-- `openai_to_ollama`
unfoldable pub openai_to_ollama : Fields → Result Fields
unfolding dict_of options set_options
openai_to_ollama body = do
  messages ← iterate_of "messages" body
  converted ← traverse (λ v. dict_of v >>= ollama_message) messages
  let out = field "model" (get_or "model" (str "") body) (
      field "messages" (list (of_list converted))
        (field "stream" (bool (truthy (get "stream" body))) end))
  ok (copy_true "tools" body (copy_true "format" body (set_options (options body) out)))

-- the function of a tool call, or {}
function_of : Value → Result Fields
unfolding as_dict
function_of (dict tc) = as_dict (get_or "function" (dict end) tc)
function_of (str s) = ok end
function_of _ = ok end

ollama_call : Codec → Value → Result Value
unfolding function_of
ollama_call c v = do fn ← function_of v; ok (function_call c (get_or "name" (str "") fn) fn)

unfoldable pub ollama_finish : String → String
unfolding nonempty
ollama_finish dr = if nonempty dr then dr else "stop"

-- `ollama_to_openai`
unfoldable pub ollama_to_openai : Codec → Fields → Result Fields
unfolding ollama_call
ollama_to_openai c body = do
  message ← as_dict (or_value (get "message" body) (dict end))
  calls ← iterate_of "tool_calls" message
  tool_calls ← traverse (ollama_call c) calls
  dr ← lower_of (or_value (get "done_reason" body) (str ""))
  total ← add_value (count "prompt_eval_count" body) (count "eval_count" body)
  ok (
      field "choices"
        (choices (assistant (or_value (get "content" message) (str "")) tool_calls)
          (str (ollama_finish dr)))
        (field "usage" (usage (count "prompt_eval_count" body) (count "eval_count" body) total)
          end))
