-- ===== src/Translate/OpenAi.antt =====
-- app/services/translate.py: `anthropic_to_openai`.
pub mod Chats
use demumumind_panel.Shared.{
  ℕ, String, Bool, true, false, ◌&&◌, ◌||◌, List, [], ◌∷◌, ◌++◌, map, keep, any, ◌==◌,
  if◌then◌else◌, Option, none, some, pos,
}
use demumumind_panel.Text.{◌+s◌, join, nonempty}
use demumumind_panel.Json.{
  Value, null, bool, int, float, str, list, dict, Items, nil, cons, Fields, end, field, to_list,
  of_list, get, get_or, set, truthy, or_value, is_null,
}
use demumumind_panel.Errors.{Result, ok, raise, other, ◌>>=◌}
use demumumind_panel.Translate.Values.{
  Codec, as_dict, is_text, iterate, iterate_of, dicts, traverse, traverse_all, loads_or, copy,
  set_text, chat_role, type_error, text,
}
use demumumind_panel.Translate.Content.{
  Block, block_of_text, image, is_image, content_blocks, text_of, image_to_anthropic,
  anthropic_image,
}
use demumumind_panel.Translate.Anthropic.{text_part, message, any_object, set_tools}

-- the dicts of a type
unfoldable pub typed : String → List Value → List Fields
typed k vs = keep (λ b. is_text k (get "type" b)) (dicts vs)

-- {"id": …, "type": "function", "function": {"name": …, "arguments": …}}
abbrev pub tool_call : Value → Value → String → Value
tool_call id name arguments = dict (
    field "id" id (
      text "type" "function"
        (field "function" (dict (field "name" name (text "arguments" arguments end))) end)))

unfoldable pub tool_call_of_use : Codec → Fields → Value
tool_call_of_use c b =
    tool_call (get_or "id" (str "") b) (get_or "name" (str "") b)
      (c.dumps (get_or "input" (dict end) b))

-- s or None
text_or_null : String → Value
text_or_null s = if nonempty s then str s else null

tool_result : Codec → Fields → Value
tool_result c b = dict (
    text "role" "tool" (
      field "tool_call_id" (get_or "tool_use_id" (str "") b)
        (text "content" (text_of c (get "content" b)) end)))

image_content : Codec → Value → Result (List Value)
image_content c (dict b) =
    if is_text "text" (get "type" b) && truthy (get "text" b)
    then ok (text_part (get "text" b) ∷ [])
    else if is_text "image" (get "type" b)
    then anthropic_image c b
    else ok []
image_content c (str s) = ok []
image_content c _ = ok []

-- a message whose content is a list of blocks, which stay as they are in `content`
openai_message_of_blocks : Codec → Value → Value → List Value → Result (List Value)
unfolding tool_call_of_use text_or_null tool_result image_content
openai_message_of_blocks c role content blocks =
    if is_text "assistant" role && truthy (list (of_list (map dict (typed "tool_use" blocks))))
    then ok (
        dict (
          text "role" "assistant" (
            field "content"
              (text_or_null (text_of c (list (of_list (map dict (typed "text" blocks))))))
              (field "tool_calls"
                (list (of_list (map (tool_call_of_use c) (typed "tool_use" blocks)))) end)))
        ∷ [])
    else if is_text "user" role && truthy (list (of_list (map dict (typed "tool_result" blocks))))
    then ok (map (tool_result c) (typed "tool_result" blocks))
    else if (is_text "user" role || is_text "assistant" role)
        && truthy (list (of_list (map dict (typed "image" blocks))))
    then (do
      parts ← traverse_all (image_content c) blocks
      ok (message role (list (of_list parts)) ∷ []))
    else ok (message (chat_role role) (str (text_of c content)) ∷ [])

unfoldable pub openai_message : Codec → Value → Result (List Value)
unfolding as_dict openai_message_of_blocks
openai_message c v = do
  msg ← as_dict v
  let role = get "role" msg
  elim (get "content" msg) [
    | list blocks ↦ openai_message_of_blocks c role (list blocks) (to_list blocks)
    | content ↦ ok (message (chat_role role) (str (text_of c content)) ∷ [])
  ]

-- `_anthropic_to_openai_messages`
unfoldable pub openai_messages : Codec → List Value → Result (List Value)
unfolding openai_message
openai_messages c messages = traverse_all (openai_message c) messages

-- stop_seq if len(stop_seq) > 1 else stop_seq[0], for a stop_seq that is true
stop_of : Value → Result Value
stop_of (list (cons v nil)) = ok v
stop_of (list xs) = ok (list xs)
stop_of (str s) = ok (str s)
stop_of (dict (field k v end)) = raise (other "KeyError" "0")
stop_of (dict d) = ok (dict d)
stop_of v = type_error "object has no len()"

openai_tool : Fields → Value
openai_tool t = dict (
    text "type" "function" (
      field "function"
        (dict (
          field "name" (get_or "name" (str "") t) (
            field "description" (get_or "description" (str "") t)
              (field "parameters" (get_or "input_schema" any_object t) end))))
        end))

set_stop_of : Fields → Fields → Result Fields
unfolding stop_of
set_stop_of body out =
    if truthy (get "stop_sequences" body)
    then (do stop ← stop_of (get "stop_sequences" body); ok (set "stop" stop out))
    else ok out

system_message : Codec → Value → List Value
system_message c system =
    if truthy system then message (str "system") (str (text_of c system)) ∷ [] else []

-- `anthropic_to_openai`
unfoldable pub anthropic_to_openai : Codec → Fields → Result Fields
unfolding openai_tool system_message set_stop_of
anthropic_to_openai c body = do
  messages ← iterate_of "messages" body
  converted ← openai_messages c messages
  let out =
      field "model" (get_or "model" (str "") body)
        (field "messages" (list (of_list (system_message c (get "system" body) ++ converted))) end)
  stopped ← set_stop_of body (
      copy "top_p" "top_p" body
        (copy "temperature" "temperature" body (copy "max_tokens" "max_tokens" body out)))
  tooled ← set_tools (map openai_tool) body stopped
  ok (copy "stream" "stream" body (copy "tool_choice" "tool_choice" body tooled))
