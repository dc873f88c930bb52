-- ===== src/Manager/Pricing/Laws.antt =====
-- What is recomputed for the rows of a model agrees with what was recorded for them.
use demumumind_panel.Shared.{
  String, ◌≡◌, refl, ap, ◌∙◌, Bool, true, false, not, ◌&&◌, Option, none, some, [], ◌∷◌, arith, inl,
  inr, ◌⊎◌, is_empty, if◌then◌else◌, Bool-cases, ℤ, pos,
}
use demumumind_panel.Shared.Dict.{lookup, insert}
use demumumind_panel.Json.{real?, Value, Fields, bool, str, dict, get, get?, number?}
use demumumind_panel.Errors.{ok}
use demumumind_panel.Manager.{ResolvedModel, Pricing, prices, add_price, some_prices, pricing_of}
use demumumind_panel.Manager.Pricing.{price_value, computed_cost, is_priced, reconcile_row}
use demumumind_panel.Dispatch.Cost.{
  price, priced, priced_by, compute_cost_from_pricing, resolve_cost, cost_from_usage, usage_of,
  is_free_model,
}
use demumumind_panel.Usage.{UsageRow}

-- A price is missing or a number.
abbrev pub Numeric : String → Fields → Type 0
Numeric k raw =
    (get? k raw ≡ none) ⊎ ((v : Value) × (x : ℤ) × (get? k raw ≡ some v) × (number? v ≡ some x))

-- The price by the key, 0 if there is none.
amount : String → Fields → ℤ
amount k raw = elim (number? (get k raw)) [ none ↦ pos 0 | some x ↦ x ]

real?-number? : (v : Value) {x : ℤ} → number? v ≡ some x → real? v ≡ some x
unfolding real? number?
real?-number? (bool b) h = absurd (ground arith)
real?-number? (str s) h = h
real?-number? v h = h

price_value-amount :
    (k : String) (raw : Fields) → Numeric k raw → price_value k raw ≡ ok (amount k raw)
unfolding price_value amount get number?
price_value-amount k raw (inl missing) = rw (missing, price_value, amount, get) refl
price_value-amount k raw (inr (v, x, found, is_number)) =
    rw (found, price_value, real?-number? v is_number, amount, get) (rw is_number refl)

put : String → Option ℤ → Pricing → Pricing
put k o out = elim o [ none ↦ out | some x ↦ insert k x out ]

or_zero : Option ℤ → ℤ
or_zero o = elim o [ none ↦ pos 0 | some x ↦ x ]

-- The three prices of a list that is built as `pricing` does.
Prices : Option ℤ → Option ℤ → Option ℤ → Pricing → Type 0
Prices a b c out =
    (price "prompt" out ≡ or_zero a)
    × (price "completion" out ≡ or_zero b)
    × (price "request" out ≡ or_zero c)

put-Prices :
    (a b c : Option ℤ) → Prices a b c (put "request" c (put "completion" b (put "prompt" a [])))
unfolding price put or_zero lookup insert Prices
put-Prices none none none = (refl, refl, refl)
put-Prices none none (some z) = (refl, refl, refl)
put-Prices none (some y) none = (refl, refl, refl)
put-Prices none (some y) (some z) = (refl, refl, refl)
put-Prices (some x) none none = (refl, refl, refl)
put-Prices (some x) none (some z) = (refl, refl, refl)
put-Prices (some x) (some y) none = (refl, refl, refl)
put-Prices (some x) (some y) (some z) = (refl, refl, refl)

prices-Prices :
    (raw : Fields)
    → Prices
        (number? (get "prompt" raw))
        (number? (get "completion" raw))
        (number? (get "request" raw))
        (prices raw)
unfolding prices add_price put
prices-Prices raw =
    put-Prices (number? (get "prompt" raw)) (number? (get "completion" raw))
      (number? (get "request" raw))

computed_cost-priced :
    (raw : Fields) (row : UsageRow)
    → Numeric "prompt" raw
    → Numeric "completion" raw
    → Numeric "request" raw
    → computed_cost raw row ≡ ok (priced (prices raw) row.tokens_in row.tokens_out)
unfolding computed_cost priced amount or_zero Prices
computed_cost-priced raw row hp hc hr =
    let (p, c, r) = prices-Prices raw in
    rw
      (
        price_value-amount "prompt" raw hp,
        price_value-amount "completion" raw hc,
        price_value-amount "request" raw hr,
      )
      (rw (p, c, r) refl)

-- A model's own price list, once its entries hold at least one price.
compute_cost_listed :
    (r : ResolvedModel) (raw : Fields) (tokens_in tokens_out : ℤ)
    → r.pricing ≡ pricing_of (dict raw)
    → compute_cost_from_pricing (some r) tokens_in tokens_out
      ≡ (if is_empty (prices raw) then none else some (priced (prices raw) tokens_in tokens_out))
unfolding compute_cost_from_pricing pricing_of priced_by some_prices
compute_cost_listed r raw tokens_in tokens_out e = rw e (of_list (prices raw) tokens_in tokens_out)
  where
    of_list :
        (ps : Pricing) (tokens_in tokens_out : ℤ)
        → priced_by (some_prices ps) tokens_in tokens_out
          ≡ (if is_empty ps then none else some (priced ps tokens_in tokens_out))
    of_list [] tokens_in tokens_out = refl
    of_list (p ∷ ps) tokens_in tokens_out = refl

-- What `_resolve_cost` answers in the three cases without a cost from the provider.
module _ (r : ResolvedModel) (raw : Fields) (body : Value) (tokens_in tokens_out : ℤ)
    (e : r.pricing ≡ pricing_of (dict raw)) (silent : cost_from_usage (usage_of body) ≡ none) where
  resolve_cost_free :
      r.is_free ≡ true → resolve_cost (some r) body tokens_in tokens_out ≡ (pos 0, true)
  unfolding resolve_cost is_free_model
  resolve_cost_free free = rw free refl

  resolve_cost-priced :
      r.is_free ≡ false
      → is_empty (prices raw) ≡ false
      → resolve_cost (some r) body tokens_in tokens_out
        ≡ (priced (prices raw) tokens_in tokens_out, true)
  unfolding resolve_cost is_free_model
  resolve_cost-priced paid full =
      rw (paid, silent, compute_cost_listed r raw tokens_in tokens_out e, full) refl

  resolve_cost_unknown :
      r.is_free ≡ false
      → is_empty (prices raw) ≡ true
      → resolve_cost (some r) body tokens_in tokens_out ≡ (pos 0, false)
  unfolding resolve_cost is_free_model
  resolve_cost_unknown paid none_given =
      rw (paid, silent, compute_cost_listed r raw tokens_in tokens_out e, none_given) refl

-- A row of a model, recorded with the cost of `_resolve_cost` for a response without a cost of its
-- own, keeps its cost and its `price_known` when `_reconcile_usage_by_model` recomputes it with the
-- price list of the model, if each of the three prices is missing or a number and a list that is
-- not empty has one of them.
pub reconcile_row-resolve_cost :
    (r : ResolvedModel) (raw : Fields) (body : Value) (row : UsageRow) (unlimited : Bool)
    → r.pricing ≡ pricing_of (dict raw)
    → Numeric "prompt" raw
    → Numeric "completion" raw
    → Numeric "request" raw
    → is_empty (prices raw) ≡ not (is_priced raw)
    → cost_from_usage (usage_of body) ≡ none
    → row.cost_usd ≡ (resolve_cost (some r) body row.tokens_in row.tokens_out).0
    → row.price_known ≡ (resolve_cost (some r) body row.tokens_in row.tokens_out).1
    → reconcile_row raw r.is_free unlimited row
      ≡ ok (record row { is_free = r.is_free; unlimited = r.is_free && unlimited })
unfolding reconcile_row
reconcile_row-resolve_cost r raw body row unlimited e hp hc hr full silent cost known =
    let answer = resolve_cost (some r) body row.tokens_in row.tokens_out in
    elim (Bool-cases r.is_free) [
      | inl free ↦
          let a = resolve_cost_free r raw body row.tokens_in row.tokens_out e silent free in
          let cost' : row.cost_usd ≡ pos 0 = cost ∙ ap (λ p. p.0) a in
          let known' : row.price_known ≡ true = known ∙ ap (λ p. p.1) a in
          rw (free, cost', known') refl
      | inr paid ↦ elim (Bool-cases (is_empty (prices raw))) [
        | inr given ↦
            let a =
              resolve_cost-priced r raw body row.tokens_in row.tokens_out e silent paid given in
            let listed : is_priced raw ≡ true = ground (arith, full, given) in
            let cost' : row.cost_usd ≡ priced (prices raw) row.tokens_in row.tokens_out =
              cost ∙ ap (λ p. p.0) a in
            let known' : row.price_known ≡ true = known ∙ ap (λ p. p.1) a in
            rw (paid, listed, computed_cost-priced raw row hp hc hr) (rw (cost', known') refl)
        | inl nothing ↦
            let a =
              resolve_cost_unknown r raw body row.tokens_in row.tokens_out e silent paid nothing in
            let unlisted : is_priced raw ≡ false = ground (arith, full, nothing) in
            let cost' : row.cost_usd ≡ pos 0 = cost ∙ ap (λ p. p.0) a in
            let known' : row.price_known ≡ false = known ∙ ap (λ p. p.1) a in
            rw (paid, unlisted, cost', known') refl
      ]
    ]
