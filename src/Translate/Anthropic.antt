-- ===== src/Translate/Anthropic.antt =====
-- app/services/translate.py: `openai_to_anthropic`.
pub mod Chats
pub mod Roles
use demumumind_panel.Shared.{
  ℕ, String, Bool, true, false, ◌&&◌, ◌||◌, List, [], ◌∷◌, ◌++◌, map, keep, any, ◌==◌,
  if◌then◌else◌, Option, none, some, pos,
}
use demumumind_panel.Text.{◌+s◌, join, nonempty}
use demumumind_panel.Json.{
  Value, null, bool, int, float, str, list, dict, Items, nil, cons, Fields, end, field, to_list,
  of_list, get, get_or, set, truthy, or_value, is_null,
}
use demumumind_panel.Errors.{Result, ok, raise, other, ◌>>=◌}
use demumumind_panel.Translate.Values.{
  Codec, as_dict, is_text, iterate, iterate_of, dicts, traverse, traverse_all, loads_or, copy,
  set_text, chat_role, type_error, text,
}
use demumumind_panel.Translate.Content.{
  Block, block_of_text, image, is_image, content_blocks, text_of, image_to_anthropic,
  anthropic_image,
}

system_part : Value → Result (List Value)
unfolding as_dict
system_part v = do
  m ← as_dict v
  ok (if is_text "system" (get "role" m) then get "content" m ∷ [] else [])

-- the texts of the system messages, by lines, for `_openai_to_anthropic_system` and for Gemini
unfoldable pub system_text : Codec → List Value → Result String
unfolding system_part
system_text c messages = do
  parts ← traverse_all system_part messages
  ok (join "\n" (map (text_of c) (keep (λ v. if is_null v then false else true) parts)))

tool_use : Codec → Value → Result Value
unfolding as_dict
tool_use c v = do
  tc ← as_dict v
  fn ← as_dict (get_or "function" (dict end) tc)
  input ← loads_or c (get_or "arguments" (str "{}") fn)
  ok (
      dict (
        text "type" "tool_use" (
          field "id" (get_or "id" (str "") tc)
            (field "name" (get_or "name" (str "") fn) (field "input" input end)))))

-- {"type": "text", "text": v}
abbrev pub text_part : Value → Value
text_part v = dict (text "type" "text" (field "text" v end))

-- {"role": role, "content": content}
abbrev pub message : Value → Value → Value
message role content = dict (field "role" role (field "content" content end))

-- [{"type": "text", "text": s}] if s else []
text_parts : String → List Value
text_parts s = if nonempty s then text_part (str s) ∷ [] else []

content_part : Block → Result Value
content_part (block_of_text v) = ok (text_part v)
content_part (image url detail) = image_to_anthropic url

-- what becomes of one message, by its role
tool_message : Codec → Fields → Value
tool_message c msg = message (str "user") (
    list (
      cons
        (dict (
          text "type" "tool_result" (
            field "tool_use_id" (get_or "tool_call_id" (str "") msg)
              (text "content" (text_of c (get "content" msg)) end))))
        nil))

calling_message : Codec → Fields → Result Value
unfolding tool_use text_parts
calling_message c msg = do
  calls ← iterate (get "tool_calls" msg)
  blocks ← traverse (tool_use c) calls
  ok (
      message (str "assistant")
        (list (of_list (text_parts (text_of c (get "content" msg)) ++ blocks))))

plain_message : Codec → Value → Value → Result Value
unfolding content_part
plain_message c role content =
    if any is_image (content_blocks content)
    then (do
      parts ← traverse content_part (content_blocks content)
      ok (message (chat_role role) (list (of_list parts))))
    else ok (message (chat_role role) (str (text_of c content)))

by_role : Codec → Fields → Result (List Value)
unfolding tool_message calling_message plain_message
by_role c msg =
    let role = get "role" msg in
    if is_text "system" role
    then ok []
    else if is_text "tool" role
    then ok (tool_message c msg ∷ [])
    else if is_text "assistant" role && truthy (get "tool_calls" msg)
    then (do m ← calling_message c msg; ok (m ∷ []))
    else (do m ← plain_message c role (get "content" msg); ok (m ∷ []))

unfoldable pub anthropic_message : Codec → Value → Result (List Value)
unfolding as_dict by_role
anthropic_message c v = do msg ← as_dict v; by_role c msg

-- `_openai_to_anthropic_messages`
unfoldable pub anthropic_messages : Codec → List Value → Result (List Value)
unfolding anthropic_message
anthropic_messages c messages = traverse_all (anthropic_message c) messages

-- isinstance(t.get("function"), dict)
unfoldable pub functions : List Fields → List Fields
functions [] = []
functions (t ∷ ts) = elim (get "function" t) [ dict f ↦ f ∷ functions ts | _ ↦ functions ts ]

-- {"type": "object"}
abbrev pub any_object : Value
any_object = dict (text "type" "object" end)

anthropic_tool : Fields → Value
anthropic_tool f = dict (
    field "name" (get_or "name" (str "") f) (
      field "description" (get_or "description" (str "") f)
        (field "input_schema" (get_or "parameters" any_object f) end)))

-- the key "tools", made of the elements of the tools of the body
unfoldable pub set_tools : (List Fields → List Value) → Fields → Fields → Result Fields
set_tools convert body out =
    if truthy (get "tools" body)
    then (do
      tools ← iterate (get "tools" body)
      ok (set "tools" (list (of_list (convert (dicts tools)))) out))
    else ok out

-- the key "stop_sequences" of the stop of the body
unfoldable pub set_stop : Value → Fields → Fields
set_stop (str s) out = set "stop_sequences" (list (cons (str s) nil)) out
set_stop (list xs) out = set "stop_sequences" (list xs) out
set_stop _ out = out

default_max_tokens : Value
default_max_tokens = int (pos 4096)

-- `openai_to_anthropic`
unfoldable pub openai_to_anthropic : Codec → Fields → Result Fields
unfolding anthropic_tool default_max_tokens
openai_to_anthropic c body = do
  messages ← iterate_of "messages" body
  system ← system_text c messages
  converted ← anthropic_messages c messages
  let out = field "model" (get_or "model" (str "") body) (
      field "messages" (list (of_list converted))
        (field "max_tokens" (or_value (get "max_tokens" body) default_max_tokens) end))
  let out' =
      copy "top_p" "top_p" body
        (copy "temperature" "temperature" body (set_text "system" system out))
  tooled ←
      set_tools (λ ts. map anthropic_tool (functions ts)) body (set_stop (get "stop" body) out')
  ok (copy "stream" "stream" body (copy "tool_choice" "tool_choice" body tooled))
