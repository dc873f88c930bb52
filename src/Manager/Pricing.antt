-- ===== src/Manager/Pricing.antt =====
-- `update_model_pricing` and `_reconcile_usage_by_model` of app/services/provider_manager.py. Of the
-- refresh between the two only the outcome counts here: an exception of it leaves the table of usage
-- as it is. A price that is no number makes the arithmetic raise, which for a text Python does too
-- unless all three prices are texts.
pub mod Laws
mod Examples
use demumumind_panel.Shared.{
  ℕ, String, Bool, true, false, not, ◌&&◌, ◌||◌, Option, none, some, List, [], ◌∷◌, ◌==◌,
  if◌then◌else◌, ℤ, pos, ◌+ℤ◌, ◌*ℤ◌,
}
use demumumind_panel.Json.{
  real?, Value, Fields, end, field, null, bool, str, list, dict, JsonText, encoded, loads, get,
  get?, get_or, set, truthy, is_null, or_value, dict_or_empty,
}
use demumumind_panel.Errors.{Result, ok, raise, other, ◌>>=◌}
use demumumind_panel.Manager.{ModelRow}
use demumumind_panel.Usage.{UsageRow}

-- if "price_…" in data: pricing[key] = data["price_…"]
merge_price : String → String → Fields → Fields → Fields
merge_price name key d pricing = elim (get? name d) [ none ↦ pricing | some v ↦ set key v pricing ]

-- the pricing after the three tests
unfoldable pub merged_pricing : Fields → Fields → Fields
unfolding merge_price
merged_pricing d mmeta = merge_price "price_request" "request" d (
    merge_price "price_completion_per_token" "completion" d (
      merge_price "price_prompt_per_token" "prompt" d
        (dict_or_empty (or_value (get_or "pricing" (dict end) mmeta) (dict end)))))

-- d[key] = v, which a text or a number has not
set_in : String → Value → Value → Result Value
set_in key v (dict d) = ok (dict (set key v d))
set_in key v (str s) = raise (other "TypeError" "item assignment")
set_in key v _ = raise (other "TypeError" "item assignment")

-- a limit that is given and not None
merge_limit : String → String → Fields → Fields → Result Fields
unfolding set_in
merge_limit name key d mmeta = if is_null (get name d) then ok mmeta else (do
  limits ← set_in key (get name d) (or_value (get_or "limits" (dict end) mmeta) (dict end))
  ok (set "limits" limits mmeta))

-- if "free" in data: mmeta["free"] = bool(data["free"])
merge_free : Fields → Fields → Fields
merge_free d mmeta = elim (get? "free" d) [
  | none ↦ mmeta
  | some v ↦ set "free" (bool (truthy v)) mmeta
]

given : String → Fields → Bool
given k d = elim (get? k d) [ none ↦ false | some v ↦ true ]

-- `changed`
unfoldable pub is_changed : Fields → Bool
unfolding given
is_changed d =
    given "price_prompt_per_token" d
    || given "price_completion_per_token" d
    || given "price_request" d
    || given "free" d
    || not (is_null (get "limit_requests_per_minute" d))
    || not (is_null (get "limit_requests_per_day" d))

-- the metadata that is written
unfoldable pub merged_meta : Fields → Fields → Result Fields
unfolding merge_free merge_limit
merged_meta d mmeta = do
  with_minute ← merge_limit "limit_requests_per_minute" "requests_per_minute" d (merge_free d mmeta)
  with_day ← merge_limit "limit_requests_per_day" "requests_per_day" d with_minute
  ok (set "price_source" (str "manual") (set "pricing" (dict (merged_pricing d mmeta)) with_day))

-- pricing.get(k, 0.0), as a factor
price_value : String → Fields → Result ℤ
price_value k pricing = elim (get? k pricing) [
  | none ↦ ok (pos 0)
  | some v ↦ elim (real? v) [
    | none ↦ raise (other "TypeError" "unsupported operand")
    | some x ↦ ok x
  ]
]

-- row.tokens_in * p + row.tokens_out * c + r
computed_cost : Fields → UsageRow → Result ℤ
unfolding price_value
computed_cost pricing row = do
  p ← price_value "prompt" pricing
  c ← price_value "completion" pricing
  r ← price_value "request" pricing
  ok (row.tokens_in *ℤ p +ℤ row.tokens_out *ℤ c +ℤ r)

pub is_priced : Fields → Bool
is_priced end = false
is_priced (field k v d) = true

-- the body of the loop over the rows
unfoldable pub reconcile_row : Fields → Bool → Bool → UsageRow → Result UsageRow
unfolding computed_cost is_priced
reconcile_row pricing is_free unlimited row =
    let flagged : UsageRow = record row { is_free = is_free; unlimited = is_free && unlimited } in
    if is_free
    then ok (record flagged { cost_usd = pos 0; price_known = true })
    else if is_priced pricing
    then (do
      cost ← computed_cost pricing row
      ok (record flagged { cost_usd = cost; price_known = true }))
    else ok (record flagged { cost_usd = pos 0; price_known = false })

is_of : String → Option String → Bool
is_of model_id none = false
is_of model_id (some id) = id == model_id

-- `_reconcile_usage_by_model`; nothing is committed if a row raises
unfoldable pub reconcile_usage_by_model :
    String → Fields → Bool → Bool → List UsageRow → Result (List UsageRow)
unfolding is_of
reconcile_usage_by_model model_id pricing is_free unlimited [] = ok []
reconcile_usage_by_model model_id pricing is_free unlimited (row ∷ rows) = do
  row' ← if is_of model_id row.model_id then reconcile_row pricing is_free unlimited row else ok row
  rows' ← reconcile_usage_by_model model_id pricing is_free unlimited rows
  ok (row' ∷ rows')

-- The result of the call, the row of the model, and the table of usage.
abbrev pub Updated : Type 0
Updated = Result (Unit {0}) × ModelRow × List UsageRow

then_reconcile : Result (Unit {0}) → ModelRow → Fields → Fields → List UsageRow → Updated
then_reconcile (raise e) model pricing mmeta rows =
    (raise e, record model { meta = encoded (dict mmeta) }, rows)
then_reconcile (ok _) model pricing mmeta rows =
    let saved : ModelRow = record model { meta = encoded (dict mmeta) } in
    elim (reconcile_usage_by_model model.id pricing (truthy (get_or "free" (bool false) mmeta))
      (not (truthy (get "limits" mmeta))) rows) [
        | ok rows' ↦ (ok tt, saved, rows')
        | raise e ↦ (raise e, saved, rows)
      ]

update_from : Result (Unit {0}) → Fields → ModelRow → Value → List UsageRow → Updated
unfolding then_reconcile
update_from refreshed d model (dict mmeta) rows =
    if is_changed d
    then elim (merged_meta d mmeta) [
      | ok mmeta' ↦ then_reconcile refreshed model (merged_pricing d mmeta) mmeta' rows
      | raise e ↦ (raise e, model, rows)
    ]
    else (ok tt, model, rows)
update_from refreshed d model (str s) rows = (raise (other "AttributeError" "get"), model, rows)
update_from refreshed d model _ rows = (raise (other "AttributeError" "get"), model, rows)

-- `update_model_pricing`, with the outcome of the refresh
unfoldable pub update_model_pricing :
    Result (Unit {0}) → Fields → ModelRow → List UsageRow → Updated
unfolding update_from
update_model_pricing refreshed d model rows = elim (loads model.meta) [
  | ok v ↦ update_from refreshed d model v rows
  | raise e ↦ (raise e, model, rows)
]
