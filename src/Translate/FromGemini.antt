-- ===== src/Translate/FromGemini.antt =====
-- app/services/translate.py: `gemini_to_openai`.
use demumumind_panel.Shared.{List, [], ◌∷◌, ◌++◌, map, if◌then◌else◌}
use demumumind_panel.Json.{
  Value, null, str, list, dict, nil, Fields, end, field, of_list, get, get_or, set, truthy,
  or_value,
}
use demumumind_panel.Errors.{Result, ok, ◌>>=◌}
use demumumind_panel.Translate.Values.{
  Codec, as_dict, is_text, iterate, iterate_of, dicts, traverse_all, copy, text, single,
  join_values,
}
use demumumind_panel.Translate.Content.{
  text_of, image_part, Item, text_item, image_item, call_item, result_item, gemini_part,
}
use demumumind_panel.Translate.Anthropic.{message, text_part, any_object}

-- what the parts of a content leave: the messages of calls and results, which come first, the
-- texts and the images
pub record Collected : Type 0 where
  pub messages : List Value
  pub texts : List Value
  pub images : List Value

unfoldable pub collect_item : Item → Collected → Collected
collect_item (text_item v) r = record r { texts = r.texts ++ v ∷ [] }
collect_item (image_item url) r = record r { images = r.images ++ image_part url ∷ [] }
collect_item (call_item id name arguments) r = record r {
  messages =
      r.messages
      ++ dict (
          text "role" "assistant" (
            field "content" null (
              field "tool_calls"
                (single (
                  dict (
                    field "id" id (
                      text "type" "function" (
                        field "function"
                          (dict (field "name" name (field "arguments" arguments end))) end)))))
                end)))
        ∷ [];
}
collect_item (result_item tool_use_id v) r = record r {
  messages =
      r.messages
      ++ dict (text "role" "tool" (field "tool_call_id" tool_use_id (field "content" v end))) ∷ [];
}

collect_items : List Item → Collected → Collected
unfolding collect_item
collect_items [] r = r
collect_items (i ∷ is) r = collect_items is (collect_item i r)

unfoldable pub collect_parts : Codec → List Fields → Collected → Result Collected
unfolding collect_items
collect_parts c [] r = ok r
collect_parts c (p ∷ ps) r = do items ← gemini_part c p; collect_parts c ps (collect_items items r)

-- the message of the texts and images of a content
text_message : Value → List Value → List Value → Result (List Value)
text_message role [] [] = ok []
text_message role [] (i ∷ is) = ok (message role (list (of_list (i ∷ is))) ∷ [])
text_message role (t ∷ ts) [] = do s ← join_values "\n" (t ∷ ts); ok (message role (str s) ∷ [])
text_message role (t ∷ ts) (i ∷ is) = do
  s ← join_values "\n" (t ∷ ts)
  ok (message role (list (of_list (text_part (str s) ∷ i ∷ is))) ∷ [])

-- the messages of one content
unfoldable pub messages_of_content : Codec → Value → Result (List Value)
unfolding as_dict text_message
messages_of_content c v = do
  content ← as_dict v
  let role = if is_text "user" (get "role" content) then str "user" else str "assistant"
  parts ← iterate_of "parts" content
  r ← collect_parts c (dicts parts) (record { messages = []; texts = []; images = [] })
  last ← text_message role r.texts r.images
  ok (r.messages ++ last)

function_tool : Fields → Value
function_tool fd = dict (
    text "type" "function" (
      field "function"
        (dict (
          field "name" (get_or "name" (str "") fd) (
            field "description" (get_or "description" (str "") fd)
              (field "parameters" (get_or "parameters" any_object fd) end))))
        end))

system_of : Codec → Value → List Value
system_of c si = if truthy si then message (str "system") (str (text_of c si)) ∷ [] else []

-- the declarations of one tool
declared : Fields → Result (List Value)
unfolding function_tool
declared t = do
  fds ← iterate (get_or "functionDeclarations" (list nil) t)
  ok (map function_tool (dicts fds))

set_declared : Fields → Fields → Result Fields
unfolding declared
set_declared body out =
    if truthy (get "tools" body)
    then (do
      tools ← iterate (get "tools" body)
      fds ← traverse_all declared (dicts tools)
      ok (set "tools" (list (of_list fds)) out))
    else ok out

-- `gemini_to_openai`
unfoldable pub gemini_to_openai : Codec → Fields → Result Fields
unfolding set_declared system_of
gemini_to_openai c body = do
  contents ← iterate_of "contents" body
  converted ← traverse_all (messages_of_content c) contents
  gc ← as_dict (or_value (get "generationConfig" body) (dict end))
  let out = field "model" (get_or "model" (str "") body) (
      field "messages" (list (of_list (system_of c (get "systemInstruction" body) ++ converted)))
        end)
  tooled ← set_declared body (
      copy "maxOutputTokens" "max_tokens" gc
        (copy "topP" "top_p" gc (copy "temperature" "temperature" gc out)))
  ok (copy "stream" "stream" body tooled)
