-- ===== src/Discovery/Examples.antt =====
-- A listing, its import and a test, and the theorems there.
use demumumind_panel.Shared.{
  ◌+◌, ◌≤◌, String, ◌≡◌, ◌⊎◌, refl, true, false, none, List, [], ◌∷◌, length,
}
use demumumind_panel.Text.{
  lower, contains_any, contains, starts_with, ends_with, nonempty, remove_prefix, strip,
}
use demumumind_panel.Json.{
  Value, Fields, str, list, dict, nil, cons, end, field, to_list, get, get?, get_or, set, or_value,
  truthy, encoded, is_null, number?, bool,
}
use demumumind_panel.Errors.{ok}
use demumumind_panel.Pool.{Endpoint, response}
use demumumind_panel.Manager.{ModelRow, init}
use demumumind_panel.Dispatch.{Env, World}
use demumumind_panel.Translate.{normalize_protocol}
use demumumind_panel.Discovery.{
  Codec, is_image_model, mark_model_kind, model_meta_from_item, listed_free, raw_items, dedupe,
  parse_model_items,
}
use demumumind_panel.Discovery.Probe.{test_provider_model}
use demumumind_panel.Discovery.Probe.Laws.{is_limited, test_provider_model_bound}
use demumumind_panel.Discovery.Merge.{
  Import, import_models, update_first, update_row, new_row, is_row_of,
}
use demumumind_panel.Discovery.Merge.Laws.{Kept, import_models-Kept}

abbrev codec : Codec
codec = record { float_of = λ s. none; to_str = λ v. "?" }

abbrev item : String → Value
item id = dict (field "id" (str id) end)

-- The id "a" stands twice.
abbrev listing : Fields
listing = field "data" (list (cons (item "a") (cons (item "b:free") (cons (item "a") nil)))) end

abbrev parsed_items : List (String × Fields)
parsed_items = ("a", end) ∷ ("b:free", field "free" (bool true) end) ∷ []

listing_parsed : parse_model_items codec "openai" listing ≡ ok parsed_items
unfolding parse_model_items raw_items normalize_protocol or_value get get? truthy to_list nonempty
    remove_prefix model_meta_from_item listed_free mark_model_kind is_image_model contains_any
    contains lower starts_with ends_with set is_null number? get_or dedupe strip
listing_parsed = refl

abbrev provider : Endpoint
provider = record {
  id = "p";
  name = "acme";
  base_url = "http://x";
  api_key = none;
  protocol = "openai";
}

abbrev env : Env
env = record { clock = λ n. n; second = 10; client = λ before r. response 429 "" none }

abbrev world : World
world = record { manager = init; sent = []; readings = 0 }

test_provider_model_bound_example :
    (length (test_provider_model (λ s. none) env provider "gpt" "r" world).1.sent ≤ 0 + 4)
    × ((is_limited (test_provider_model (λ s. none) env provider "gpt" "r" world).0.category
          ≡ false)
        ⊎ (length (test_provider_model (λ s. none) env provider "gpt" "r" world).1.sent ≡ 0 + 4))
    × ((is_image_model "gpt" ≡ false)
        ⊎ ((test_provider_model (λ s. none) env provider "gpt" "r" world).1.sent ≡ []))
test_provider_model_bound_example =
    test_provider_model_bound (λ s. none) env provider "gpt" "r" world

abbrev known : ModelRow
known = record {
  id = "m";
  provider_id = "p";
  user_model_id = "a";
  internal_model = "a";
  is_active = true;
  meta = encoded (dict (field "price_source" (str "manual") end));
}

abbrev before : Import
before = record { imported = 0; skipped = 0; rows = known ∷ [] }

abbrev after : Import
after = record {
  imported = 1;
  skipped = 1;
  rows = known ∷ new_row "id" "p" "b:free" (field "free" (bool true) end) ∷ [];
}

import_run : import_models (λ n. "id") (λ rows row. true) "p" parsed_items before ≡ ok after
unfolding import_models update_first is_row_of update_row truthy
import_run = refl

import_models-Kept_example :
    Kept before.rows after.rows
    × (after.imported + after.skipped ≡ before.imported + before.skipped + 2)
import_models-Kept_example =
    import_models-Kept (λ n. "id") (λ rows row. true) "p" parsed_items before import_run
