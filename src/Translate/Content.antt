-- ===== src/Translate/Content.antt =====
-- The parts of a message in app/services/translate.py: texts, images, and the parts of Gemini.

use demumumind_panel.Shared.{
  ℕ, zero, suc, String, Bool, true, false, ◌&&◌, List, [], ◌∷◌, ◌++◌, keep, if◌then◌else◌,
}
use demumumind_panel.Text.{◌+s◌, join, nonempty, starts_with, partition, or_text}
use demumumind_panel.Json.{
  Value, null, str, list, dict, Fields, end, field, to_list, get, get_or, has, truthy, or_value,
}
use demumumind_panel.Errors.{Result, ok, ◌>>=◌}
use demumumind_panel.Translate.Values.{Codec, to_str, as_dict, is_text, no_attribute, text}

-- the text of one block of a list content
block_text : Codec → Value → List String
unfolding to_str
block_text c (dict b) = to_str c (get_or "text" (str "") b) ∷ []
block_text c (str s) = s ∷ []
block_text c null = []
block_text c v = to_str c v ∷ []

block_texts : Codec → List Value → List String
unfolding block_text
block_texts c [] = []
block_texts c (b ∷ bs) = block_text c b ++ block_texts c bs

-- `_text_of`
unfoldable pub text_of : Codec → Value → String
unfolding block_texts to_str
text_of c (str s) = s
text_of c (list blocks) = join "\n" (keep nonempty (block_texts c (to_list blocks)))
text_of c null = ""
text_of c v = to_str c v

-- the blocks of `_openai_content_blocks`
pub data Block : Type 0 where
  block_of_text : Value → Block
  image : (url detail : Value) → Block

-- block.get("image_url") or {}, if it is a dict, and its url if there is one
image_block : Value → List Block
image_block (dict iu) =
    let url = get_or "url" (str "") iu in
    if truthy url then image url (get "detail" iu) ∷ [] else []
image_block (str s) = []
image_block _ = []

content_block : Value → List Block
unfolding image_block
content_block (dict b) =
    if is_text "text" (get "type" b) && truthy (get "text" b)
    then block_of_text (get "text" b) ∷ []
    else if is_text "image_url" (get "type" b)
    then image_block (get "image_url" b)
    else []
content_block (str s) = []
content_block _ = []

content_blocks_of : List Value → List Block
unfolding content_block
content_blocks_of [] = []
content_blocks_of (b ∷ bs) = content_block b ++ content_blocks_of bs

-- `_openai_content_blocks`
unfoldable pub content_blocks : Value → List Block
unfolding content_blocks_of nonempty
content_blocks (str s) = if nonempty s then block_of_text (str s) ∷ [] else []
content_blocks (list blocks) = content_blocks_of (to_list blocks)
content_blocks _ = []

unfoldable pub is_image : Block → Bool
is_image (block_of_text v) = false
is_image (image url detail) = true

-- what stands before the first c, or the whole text
before : ℕ → String → String
unfolding partition
before c s = (partition c s).0

-- s.replace("data:", ""), with the number of characters still to be left out
without_scheme : ℕ → String → String
unfolding starts_with
without_scheme k String.[] = ""
without_scheme zero (String.◌∷◌ c s) = elim (starts_with (String.◌∷◌ c s) "data:") [
  | true ↦ without_scheme 4 s
  | false ↦ String.◌∷◌ c (without_scheme 0 s)
]
without_scheme (suc k) (String.◌∷◌ c s) = without_scheme k s

-- the media type of a data URL, from what stands before its comma
unfoldable pub media_type : String → String
unfolding before without_scheme or_text
media_type header = or_text (without_scheme 0 (before b';' header)) "image/png"

-- `_image_url_to_anthropic`
unfoldable pub image_to_anthropic : Value → Result Value
unfolding media_type starts_with partition no_attribute
image_to_anthropic (str url) =
    let (header, found, b64) = partition b',' url in
    ok (
      if starts_with url "data:"
      then dict (
          text "type" "image" (
            field "source"
              (dict (
                text "type" "base64" (text "media_type" (media_type header) (text "data" b64 end))))
              end))
      else dict (
          text "type" "image" (field "source" (dict (text "type" "url" (text "url" url end))) end)))
image_to_anthropic v = no_attribute "startswith" v

-- `_image_url_to_gemini`
unfoldable pub image_to_gemini : Value → Result Value
unfolding media_type starts_with partition no_attribute
image_to_gemini (str url) =
    let (header, found, b64) = partition b',' url in
    ok (
      if starts_with url "data:"
      then dict (
          field "inline_data" (dict (text "mime_type" (media_type header) (text "data" b64 end)))
            end)
      else dict (field "file_data" (dict (text "file_uri" url end)) end))
image_to_gemini v = no_attribute "startswith" v

-- {"type": "image_url", "image_url": {"url": url}}
abbrev pub image_part : Value → Value
image_part url = dict (text "type" "image_url" (field "image_url" (dict (field "url" url end)) end))

-- f"data:{media};base64,{data}"
unfoldable pub data_url : Codec → Value → Value → Value
unfolding to_str ◌+s◌
data_url c media content = str ("data:" +s to_str c media +s ";base64," +s to_str c content)

-- `_anthropic_image_to_openai`
unfoldable pub anthropic_image : Codec → Fields → Result (List Value)
unfolding data_url as_dict
anthropic_image c block = do
  src ← as_dict (or_value (get "source" block) (dict end))
  ok (
      if is_text "base64" (get "type" src)
      then image_part
          (data_url c (get_or "media_type" (str "image/png") src) (get_or "data" (str "") src))
        ∷ []
      else if is_text "url" (get "type" src)
      then image_part (get_or "url" (str "") src) ∷ []
      else [])

-- an item that `_gemini_part_to_openai` returns
pub data Item : Type 0 where
  text_item : Value → Item
  image_item : Value → Item
  call_item : (id name arguments : Value) → Item
  result_item : (tool_use_id content : Value) → Item

field_of_dict : String → Value → Value → Value
field_of_dict k v (dict d) = get_or k v d
field_of_dict k v (str s) = v
field_of_dict k v _ = v

function_call : Codec → Value → Result (List Item)
unfolding as_dict
function_call c v = do
  fc ← as_dict v
  ok (
      call_item (get_or "name" (str "") fc) (get_or "name" (str "") fc)
        (str (c.dumps (get_or "args" (dict end) fc)))
      ∷ [])

function_response : Codec → Value → Result (List Item)
unfolding as_dict
function_response c v = do
  fr ← as_dict v
  ok (
      result_item (get_or "name" (str "") fr) (str (c.dumps (get_or "response" (dict end) fr)))
      ∷ [])

-- `_gemini_part_to_openai`
unfoldable pub gemini_part : Codec → Fields → Result (List Item)
unfolding field_of_dict data_url function_call function_response
gemini_part c part =
    if has "text" part
    then ok (text_item (get "text" part) ∷ [])
    else if has "inline_data" part
    then ok (
        image_item (
          data_url c (field_of_dict "mime_type" (str "image/png") (get "inline_data" part))
            (field_of_dict "data" (str "") (get "inline_data" part)))
        ∷ [])
    else if has "file_data" part
    then ok (image_item (field_of_dict "file_uri" (str "") (get "file_data" part)) ∷ [])
    else if has "functionCall" part
    then function_call c (get "functionCall" part)
    else if has "functionResponse" part
    then function_response c (get "functionResponse" part)
    else ok []
