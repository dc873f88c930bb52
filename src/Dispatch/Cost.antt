-- ===== src/Dispatch/Cost.antt =====
-- `_tokens_from`, `_cost_from_usage`, `_compute_cost_from_pricing`, `_resolve_cost` and the flags of
-- a usage row of app/services/dispatch.py. Prices and costs are in units of 10^-12 dollars; `int` of
-- a count that is neither an int nor a float is left to a parameter.
use demumumind_panel.Shared.{
  String, Bool, true, false, ◌&&◌, ◌||◌, Option, none, some, [], ◌∷◌, ◌==◌, if◌then◌else◌, ℤ, pos,
  ◌+ℤ◌, ◌*ℤ◌, leb_ℤ,
}
use demumumind_panel.Shared.Dict.{lookup}
use demumumind_panel.Json.{
  Value, Fields, end, field, null, int, str, dict, get, get_or, or_value, number?, real?,
}
use demumumind_panel.Errors.{Result, ok, raise, other, ◌>>=◌}
use demumumind_panel.Manager.{ResolvedModel, Pricing}
use demumumind_panel.Translate.{normalize_protocol}

-- x.get(k, default), which only a dict has
unfoldable pub attribute_get : String → Value → Value → Result Value
attribute_get k d (dict fields) = ok (get_or k d fields)
attribute_get k d (str s) = raise (other "AttributeError" "get")
attribute_get k d _ = raise (other "AttributeError" "get")

module _ (int_of : Value → Result ℤ) where
  -- (int(u.get(a, 0)), int(u.get(b, 0)))
  unfoldable pub two_counts : String → String → Value → Result (ℤ × ℤ)
  two_counts a b u = do
    x ← attribute_get a (int (pos 0)) u
    tokens_in ← int_of x
    y ← attribute_get b (int (pos 0)) u
    tokens_out ← int_of y
    ok (tokens_in, tokens_out)

  -- `_tokens_from`
  unfoldable pub tokens_from : Fields → String → Result (ℤ × ℤ)
  tokens_from d protocol =
      let usage = or_value (get "usage" d) (dict end) in
      let proto = normalize_protocol protocol in
      if proto == "anthropic"
      then two_counts "input_tokens" "output_tokens" usage
      else if proto == "gemini"
      then two_counts "promptTokenCount" "candidatesTokenCount"
          (or_value (get "usageMetadata" d) (dict end))
      else two_counts "prompt_tokens" "completion_tokens" usage

sum_of : Option ℤ → Option ℤ → Option ℤ
sum_of none c = none
sum_of (some p) none = none
sum_of (some p) (some c) = some (p +ℤ c)

details_cost : Value → Option ℤ
unfolding sum_of
details_cost (dict d) =
    sum_of (real? (get "upstream_inference_prompt_cost" d))
      (real? (get "upstream_inference_completions_cost" d))
details_cost (str s) = none
details_cost _ = none

-- `_cost_from_usage`
unfoldable pub cost_from_usage : Value → Option ℤ
unfolding details_cost
cost_from_usage (dict usage) = elim (number? (get "cost" usage)) [
  | some cost ↦ some cost
  | none ↦ details_cost (get "cost_details" usage)
]
cost_from_usage (str s) = none
cost_from_usage _ = none

-- pricing.get(k, 0.0)
unfoldable pub price : String → Pricing → ℤ
price k p = elim (lookup k p) [ none ↦ pos 0 | some x ↦ x ]

-- tokens_in * prompt + tokens_out * completion + request
unfoldable pub priced : Pricing → ℤ → ℤ → ℤ
priced p tokens_in tokens_out =
    tokens_in *ℤ price "prompt" p +ℤ tokens_out *ℤ price "completion" p +ℤ price "request" p

unfoldable pub priced_by : Option Pricing → ℤ → ℤ → Option ℤ
priced_by none tokens_in tokens_out = none
priced_by (some []) tokens_in tokens_out = none
priced_by (some (p ∷ ps)) tokens_in tokens_out = some (priced (p ∷ ps) tokens_in tokens_out)

-- `_compute_cost_from_pricing`
unfoldable pub compute_cost_from_pricing : Option ResolvedModel → ℤ → ℤ → Option ℤ
unfolding priced_by
compute_cost_from_pricing none tokens_in tokens_out = none
compute_cost_from_pricing (some r) tokens_in tokens_out = priced_by r.pricing tokens_in tokens_out

-- `_is_free_model`
unfoldable pub is_free_model : Option ResolvedModel → Bool
is_free_model none = false
is_free_model (some r) = r.is_free

-- not resolved.limits
no_limits : Option Fields → Bool
no_limits none = true
no_limits (some end) = true
no_limits (some (field k v d)) = false

-- `_is_unlimited_model`
unfoldable pub is_unlimited_model : Option ResolvedModel → Bool
unfolding no_limits
is_unlimited_model none = false
is_unlimited_model (some r) = r.is_free && no_limits r.limits

-- data_or_usage.get("usage") if it is a dict
unfoldable pub usage_of : Value → Value
usage_of (dict d) = get "usage" d
usage_of (str s) = null
usage_of _ = null

-- `_resolve_cost`
unfoldable pub resolve_cost : Option ResolvedModel → Value → ℤ → ℤ → ℤ × Bool
resolve_cost resolved data_or_usage tokens_in tokens_out =
    if is_free_model resolved
    then (pos 0, true)
    else elim (cost_from_usage (usage_of data_or_usage)) [
      | some cost ↦ (cost, true)
      | none ↦ elim (compute_cost_from_pricing resolved tokens_in tokens_out) [
        | some computed ↦ (computed, true)
        | none ↦ (pos 0, false)
      ]
    ]

-- `_is_free_model(resolved) or (cost <= 0.000001 and price_known)`
unfoldable pub counts_as_free : Option ResolvedModel → ℤ → Bool → Bool
counts_as_free resolved cost price_known =
    is_free_model resolved || leb_ℤ cost (pos 1000000) && price_known
