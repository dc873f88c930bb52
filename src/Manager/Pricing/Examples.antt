-- ===== src/Manager/Pricing/Examples.antt =====
-- A priced model and a row of its usage, and the theorem there.
use demumumind_panel.Shared.{◌≡◌, refl, true, false, none, some, [], ◌∷◌, inl, inr, pos, ◌+ℤ◌, ◌*ℤ◌}
use demumumind_panel.Shared.Dict.{lookup, insert}
use demumumind_panel.Json.{Fields, field, end, null, float, get, get?, number?}
use demumumind_panel.Errors.{ok}
use demumumind_panel.Manager.{ResolvedModel, pricing_of, prices, some_prices, add_price}
use demumumind_panel.Manager.Pricing.{is_priced, reconcile_row}
use demumumind_panel.Manager.Pricing.Laws.{reconcile_row-resolve_cost}
use demumumind_panel.Usage.{UsageRow}
use demumumind_panel.Dispatch.Cost.{
  resolve_cost, cost_from_usage, usage_of, is_free_model, compute_cost_from_pricing, priced_by,
  priced, price,
}

abbrev raw : Fields
raw = field "prompt" (float (pos 2)) end

abbrev resolved : ResolvedModel
resolved = record {
  user_model_id = "gpt";
  internal_model = "gpt";
  provider_id = "p";
  provider_name = "acme";
  base_url = "http://x";
  protocol = "openai";
  api_key = some "a";
  model_id = some "m";
  pricing = some (("prompt", pos 2) ∷ []);
  is_free = false;
  limits = none;
  kind = "chat";
}

abbrev row : UsageRow
row = record {
  agent_type = "default";
  provider_id = some "p";
  model_id = some "m";
  tokens_in = pos 3;
  tokens_out = pos 4;
  cost_usd = pos 6;
  is_free = false;
  unlimited = false;
  price_known = true;
  cache_hit = false;
  created_at = 0;
}

reconcile_row-resolve_cost_example :
    reconcile_row raw false false row ≡ ok (record row { is_free = false; unlimited = false })
unfolding pricing_of some_prices add_price prices is_priced cost_from_usage usage_of resolve_cost
    is_free_model compute_cost_from_pricing priced_by priced price get get? number? insert lookup
    ◌+ℤ◌ ◌*ℤ◌
reconcile_row-resolve_cost_example =
    reconcile_row-resolve_cost resolved raw null row false refl
      (inr (float (pos 2), pos 2, refl, refl)) (inl refl) (inl refl) refl refl refl refl
