-- ===== src/Discovery.antt =====
-- app/services/discovery.py: what a listing of models says, and the merge with known metadata. The
-- children make the requests.
pub mod Merge
pub mod Parsed
pub mod Probe
mod Examples
use demumumind_panel.Shared.{
  ℕ, String, Bool, true, false, not, ◌&&◌, ◌||◌, Option, none, some, List, [], ◌∷◌, map, ◌==◌, any,
  if◌then◌else◌, ℤ, pos, eqb_ℤ,
}
use demumumind_panel.Text.{lower, contains_any, nonempty, ends_with, remove_prefix}
use demumumind_panel.Json.{
  Value, Items, Fields, null, bool, int, float, str, list, dict, nil, cons, end, field, to_list,
  get, get?, get_or, set, is_null, number?, or_value, truthy,
}
use demumumind_panel.Errors.{Result, ok, raise, other, ◌>>=◌}
use demumumind_panel.Translate.{normalize_protocol}

abbrev image_model_hints : List String
image_model_hints =
    "gpt-image" ∷ "dall-e" ∷ "dalle" ∷ "imagen" ∷ "flux" ∷ "stable-diffusion" ∷ "sdxl"
    ∷ "midjourney" ∷ "image-gen" ∷ "imagegen" ∷ []

-- `_is_image_model`
unfoldable pub is_image_model : String → Bool
is_image_model mid = contains_any image_model_hints (lower mid)

-- `_mark_model_kind`
unfoldable pub mark_model_kind : Fields → String → Fields
mark_model_kind meta mid = if is_image_model mid then set "kind" (str "image") meta else meta

-- What parses texts and prints values: `float(s)`, `none` where it raises `ValueError`, and `str(v)`
-- of a value that is no text.
pub record Codec : Type 0 where
  pub float_of : String → Option ℤ
  pub to_str : Value → String

module _ (c : Codec) where
  -- the price of a key of the listing
  price_of : Value → Option ℤ
  price_of (str s) = c.float_of s
  price_of v = number? v

  add_listed : Fields → String → Fields → Fields
  unfolding price_of
  add_listed pricing_raw key pricing = elim (price_of (get key pricing_raw)) [
    | none ↦ pricing
    | some x ↦ set key (float x) pricing
  ]

  listed_pricing : Value → Fields
  unfolding add_listed
  listed_pricing (dict raw) =
      add_listed raw "request" (add_listed raw "completion" (add_listed raw "prompt" end))
  listed_pricing (str s) = end
  listed_pricing _ = end

  -- str(item.get("id") or "")
  listed_id : Fields → String
  listed_id item = elim (or_value (get "id" item) (str "")) [ str s ↦ s | v ↦ c.to_str v ]

  -- pricing.get(k, 0.0) == 0.0
  is_zero : String → Fields → Bool
  is_zero k pricing = elim (number? (get_or k (float (pos 0)) pricing)) [
    | none ↦ false
    | some x ↦ eqb_ℤ x (pos 0)
  ]

  -- `free`
  unfoldable pub listed_free : String → Fields → Bool
  unfolding is_zero
  listed_free mid pricing =
      ends_with mid ":free"
      || ends_with mid "-free"
      || truthy (dict pricing)
        && (is_zero "prompt" pricing && is_zero "completion" pricing && is_zero "request" pricing)

  add_limit : Fields → String → Fields → Fields
  add_limit raw key limits = if is_null (get key raw) then limits else set key (get key raw) limits

  listed_limits : Value → Fields
  unfolding add_limit
  listed_limits (dict raw) = add_limit raw "completion_tokens" (add_limit raw "prompt_tokens" end)
  listed_limits (str s) = end
  listed_limits _ = end

  -- if d: meta[key] = d
  set_dict : String → Fields → Fields → Fields
  set_dict key d meta = if truthy (dict d) then set key (dict d) meta else meta

  -- `_model_meta_from_item`
  unfoldable pub model_meta_from_item : Fields → Fields
  unfolding listed_pricing listed_id listed_limits set_dict
  model_meta_from_item item =
      let pricing = listed_pricing (get "pricing" item) in
      let mid = listed_id item in
      let marked = mark_model_kind (set_dict "pricing" pricing end) mid in
      let freed = if listed_free mid pricing then set "free" (bool true) marked else marked in
      set_dict "limits" (listed_limits (get "per_request_limits" item)) freed

  -- one item of a listing; a text stands in `key`, without `prefix`
  item_of : String → String → Value → List (String × Fields) → List (String × Fields)
  item_of key prefix (dict item) rest = elim (get key item) [
    | str s ↦
        if nonempty s then (remove_prefix s prefix, model_meta_from_item item) ∷ rest else rest
    | _ ↦ rest
  ]
  item_of key prefix (str s) rest = rest
  item_of key prefix _ rest = rest

  items_of : String → String → List Value → List (String × Fields)
  unfolding item_of
  items_of key prefix [] = []
  items_of key prefix (v ∷ vs) = item_of key prefix v (items_of key prefix vs)

-- for item in data.get(k) or []: the items that may be dicts
iterated : Value → Result (List Value)
iterated (list xs) = ok (to_list xs)
iterated (dict d) = ok []
iterated (str s) = ok []
iterated _ = raise (other "TypeError" "not iterable")

-- the items of the listing, before doubles are dropped
unfoldable pub raw_items : Codec → String → Fields → Result (List (String × Fields))
unfolding iterated items_of
raw_items c protocol d =
    if normalize_protocol protocol == "gemini"
    then (do
      xs ← iterated (or_value (get "models" d) (list nil))
      ok (items_of c "name" "models/" xs))
    else (do xs ← iterated (or_value (get "data" d) (list nil)); ok (items_of c "id" "" xs))

-- the loop that keeps the first item of each id
unfoldable pub dedupe : List String → List (String × Fields) → List (String × Fields)
dedupe seen [] = []
dedupe seen ((mid, meta) ∷ raw) =
    let fresh = dedupe (mid ∷ seen) raw in
    let rest = dedupe seen raw in if any (λ s. s == mid) seen then rest else (mid, meta) ∷ fresh

-- `parse_model_items`
unfoldable pub parse_model_items : Codec → String → Fields → Result (List (String × Fields))
parse_model_items c protocol d = do raw ← raw_items c protocol d; ok (dedupe [] raw)

-- `parse_model_list`
unfoldable pub parse_model_list : Codec → String → Fields → Result (List String)
parse_model_list c protocol d = do items ← parse_model_items c protocol d; ok (map (λ i. i.0) items)
