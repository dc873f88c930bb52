-- ===== src/Dispatch/Image.antt =====
-- `image_generation` and `_record_image_generation` of app/services/dispatch.py.
pub mod Total
pub mod Quiet
use demumumind_panel.Shared.{
  ℕ, suc, String, Bool, true, false, Option, none, some, List, [], ◌∷◌, ◌++◌, if◌then◌else◌, ℤ, pos,
  length,
}
use demumumind_panel.Text.{nonempty}
use demumumind_panel.Json.{Value, str, list, dict, nil, cons, int, Fields, get, or_value, truthy}
use demumumind_panel.Errors.{Result, ok, raise}
use demumumind_panel.Manager.{ResolvedModel}
use demumumind_panel.Translate.Values.{to_str, as_dict}
use demumumind_panel.Dispatch.Request.{Task}
use demumumind_panel.Dispatch.Call.{
  Setup, Panel, ImageRow, Call, pure, lift, ◌>>=◌, ◌>>◌, Chat, find_model, request, record_row,
  free_row, has_pricing,
}

-- the first base64 payload, if there is one
first_payload : Fields → Option String
first_payload answer = elim (get "data" answer) [
  | list (cons (dict first) rest) ↦ elim (get "b64_json" first) [
    | str b64 ↦ if nonempty b64 then some b64 else none
    | _ ↦ none
  ]
  | _ ↦ none
]

stored : Setup → ImageRow → Panel → Panel
stored s row p =
    if s.image_commits (length p.images) then record p { images = p.images ++ row ∷ [] } else p

saved : Setup → (String → ImageRow) → Result String → Panel → Panel
unfolding stored
saved s row (raise e) p = p
saved s row (ok path) p = stored s (row path) p

recorded : Setup → (String → ImageRow) → Option String → Panel → Panel
unfolding saved
recorded s row none p = p
recorded s row (some b64) p = saved s row (s.save_image (length p.images) b64) p

-- `_record_image_generation`, with the row but for its path
unfoldable pub record_image : Setup → (String → ImageRow) → Fields → Call (Unit {0})
unfolding first_payload recorded
record_image s row answer p = (some (ok tt), recorded s row (first_payload answer) p)

-- body.get(k) or default
field_or : String → Value → Fields → Value
field_or k v body = or_value (get k body) v

image_task : Chat → ResolvedModel → Task
image_task c resolved = record {
  resolved = resolved;
  target = resolved.protocol;
  body = dict c.body;
  request_id = c.request_id;
  path_override = some "images/generations";
  request_timeout = some 120;
}

image_row : Setup → Chat → ResolvedModel → ℤ → String → ImageRow
image_row s c resolved n path = record {
  provider_id = some resolved.provider_id;
  model_id = resolved.model_id;
  agent_type = c.agent_type;
  prompt = to_str s.codec (field_or "prompt" (str "") c.body);
  size = to_str s.codec (field_or "size" (str "1024x1024") c.body);
  n = n;
  file_path = path;
}

-- `image_generation`
unfoldable pub image_generation : Setup → Chat → Call Value
unfolding image_task image_row field_or
image_generation s c = do
  resolved ← find_model s c
  (answer, latency) ← request s (image_task c resolved)
  (λ p. record_row s (free_row s c resolved (has_pricing resolved) false p) p)
  n ← lift (s.int_of (field_or "n" (int (pos 1)) c.body))
  answer_fields ← lift (as_dict answer)
  record_image s (image_row s c resolved n) answer_fields
  pure answer
