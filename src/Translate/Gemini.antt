-- ===== src/Translate/Gemini.antt =====
-- app/services/translate.py: `openai_to_gemini`.
use demumumind_panel.Shared.{String, ◌&&◌, List, [], ◌∷◌, ◌++◌, map, if◌then◌else◌}
use demumumind_panel.Text.{nonempty}
use demumumind_panel.Json.{
  Value, str, list, dict, Fields, end, field, of_list, get, get_or, set, truthy, or_value,
}
use demumumind_panel.Errors.{Result, ok, ◌>>=◌}
use demumumind_panel.Translate.Values.{
  Codec, as_dict, is_text, iterate, iterate_of, traverse, traverse_all, loads_or, copy, text,
  single,
}
use demumumind_panel.Translate.Content.{
  Block, block_of_text, image, content_blocks, text_of, image_to_gemini,
}
use demumumind_panel.Translate.Anthropic.{system_text, functions, any_object, set_tools}

-- {"role": role, "parts": parts}
abbrev pub content : Value → List Value → Value
content role parts = dict (field "role" role (field "parts" (list (of_list parts)) end))

-- {"text": v}
abbrev pub text_only : Value → Value
text_only v = dict (field "text" v end)

-- a message of a tool
tool_content : Codec → Fields → Value
tool_content c msg = content (str "user") (
    dict (
      field "functionResponse"
        (dict (
          field "name" (or_value (get_or "tool_call_id" (str "") msg) (str "function_result"))
            (field "response" (dict (text "result" (text_of c (get "content" msg)) end)) end)))
        end)
    ∷ [])

-- the function of a tool call, or {}
function_of : Value → Result Fields
unfolding as_dict
function_of (dict tc) = as_dict (get_or "function" (dict end) tc)
function_of (str s) = ok end
function_of _ = ok end

call_part : Codec → Value → Result Value
unfolding function_of
call_part c v = do
  fn ← function_of v
  args ← loads_or c (get_or "arguments" (str "{}") fn)
  ok (
      dict (
        field "functionCall"
          (dict (field "name" (get_or "name" (str "") fn) (field "args" args end))) end))

-- [{"text": s}] if s else []
text_parts : String → List Value
text_parts s = if nonempty s then text_only (str s) ∷ [] else []

-- a message that calls tools
calling_content : Codec → Fields → Result Value
unfolding call_part text_parts
calling_content c msg = do
  calls ← iterate (get "tool_calls" msg)
  parts ← traverse (call_part c) calls
  ok (content (str "model") (text_parts (text_of c (get "content" msg)) ++ parts))

content_part : Block → Result Value
content_part (block_of_text v) = ok (text_only v)
content_part (image url detail) = image_to_gemini url

-- "user" if role == "user" else "model"
gemini_role : Value → Value
gemini_role role = if is_text "user" role then str "user" else str "model"

unfoldable pub gemini_content : Codec → Value → Result (List Value)
unfolding as_dict tool_content calling_content content_part gemini_role
gemini_content c v = do
  msg ← as_dict v
  let role = get "role" msg
  if is_text "system" role
      then ok []
      else if is_text "tool" role
      then ok (tool_content c msg ∷ [])
      else if is_text "assistant" role && truthy (get "tool_calls" msg)
      then (do m ← calling_content c msg; ok (m ∷ []))
      else (do
        parts ← traverse content_part (content_blocks (get "content" msg))
        ok (content (gemini_role role) parts ∷ []))

-- `_openai_to_gemini_contents`
unfoldable pub gemini_contents : Codec → List Value → Result (List Value)
unfolding gemini_content
gemini_contents c messages = traverse_all (gemini_content c) messages

-- out[k] = d, if d holds a field
unfoldable pub set_dict : String → Fields → Fields → Fields
set_dict k end out = out
set_dict k (field j v d) out = set k (dict (field j v d)) out

pub generation_config : Fields → Fields
generation_config body =
    copy "max_tokens" "maxOutputTokens" body
      (copy "top_p" "topP" body (copy "temperature" "temperature" body end))

-- {"parts": [{"text": s}]}
unfoldable pub instruction : String → Fields → Fields
instruction s out =
    if nonempty s
    then set "systemInstruction" (dict (field "parts" (single (text_only (str s))) end)) out
    else out

declaration : Fields → Value
declaration f = dict (
    field "name" (get_or "name" (str "") f) (
      field "description" (get_or "description" (str "") f)
        (field "parameters" (get_or "parameters" any_object f) end)))

declarations : List Fields → List Value
unfolding declaration
declarations tools =
    dict (field "functionDeclarations" (list (of_list (map declaration (functions tools)))) end)
    ∷ []

-- `openai_to_gemini`
unfoldable pub openai_to_gemini : Codec → Fields → Result Fields
unfolding instruction set_dict generation_config declarations
openai_to_gemini c body = do
  messages ← iterate_of "messages" body
  contents ← gemini_contents c messages
  system ← system_text c messages
  let out =
      field "model" (get_or "model" (str "") body) (field "contents" (list (of_list contents)) end)
  tooled ←
      set_tools declarations body
        (set_dict "generationConfig" (generation_config body) (instruction system out))
  ok (copy "stream" "stream" body tooled)
