-- ===== src/Cleanup.antt =====
-- app/services/cleanup.py: what a cleanup deactivates and deletes. The requests go through
-- Discovery; `int_of` is `int` of a JSON value. The steps are committed together at the end.
pub mod Run
pub mod Laws
mod Examples
use demumumind_panel.Shared.{
  ℕ, zero, suc, ◌+◌, ◌-◌, ◌*◌, String, Bool, true, false, not, ◌&&◌, ◌||◌, Option, none, some, List,
  [], ◌∷◌, ◌++◌, ◌==◌, any, keep, leb, ltb, length, is_empty, if◌then◌else◌, ℤ, pos, ◌+ℤ◌, leb_ℤ,
}
use demumumind_panel.Text.{◌+s◌}
use demumumind_panel.Json.{
  Value, Fields, dict, end, field, str, bool, int, get, get_or, set, truthy, JsonText, encoded,
  loads, dict_or_empty,
}
use demumumind_panel.Errors.{Result, Exception, ok, raise, app, validation, http, other, ◌>>=◌}
use demumumind_panel.Pool.{Endpoint}
use demumumind_panel.Manager.{ProviderRow, ModelRow}
use demumumind_panel.Usage.{UsageRow, key_agent_type}
use demumumind_panel.Dispatch.{Env, World}
use demumumind_panel.Discovery.{Codec}
use demumumind_panel.Discovery.Probe.{
  DiscoveredModelStatus, TestCategory, fine, premium, rate_limited, listed, error,
  discover_provider_models, test_provider_model,
}

-- What the cleanup is given.
pub record Tools : Type 0 where
  pub env : Env
  pub codec : Codec
  pub parsed : String → Option Value
  pub int_of : Value → Result ℤ

-- The class of an exception.
type_name : Exception → String
type_name (app e) = "UpstreamError"
type_name (validation s) = "RequestValidationError"
type_name (http status s) = "HTTPException"
type_name (other name s) = name

endpoint_of : ProviderRow → Endpoint
endpoint_of p = record {
  id = p.id;
  name = p.name;
  base_url = p.base_url;
  api_key = p.api_key;
  protocol = p.protocol;
}

-- `_load_meta`
unfoldable pub load_meta : JsonText → Fields
load_meta raw = elim (loads raw) [ ok v ↦ dict_or_empty v | raise e ↦ end ]

-- The providers after the first step, the number and the warnings.
pub record Swept : Type 0 where
  pub providers : List ProviderRow
  pub deactivated : ℕ
  pub warnings : List String

-- one provider of the first step, by the answer to its listing
sweep_one : ProviderRow → Result (List String) → Swept → Swept
sweep_one p (ok names) s = record s { providers = p ∷ s.providers }
sweep_one p (raise e) s = record {
  providers = record p { is_active = false } ∷ s.providers;
  deactivated = s.deactivated + 1;
  warnings = ("provider " +s p.name +s ": unreachable (" +s type_name e +s ")") ∷ s.warnings;
}

-- step 1
unfoldable pub sweep_providers : Tools → List ProviderRow → World → Swept × World
unfolding sweep_one endpoint_of type_name
sweep_providers t [] w = (record { providers = []; deactivated = 0; warnings = [] }, w)
sweep_providers t (p ∷ ps) w =
    if p.is_active
    then (let (names, w1) = discover_provider_models t.codec t.env (endpoint_of p) "cleanup" w in
        let (rest, w2) = sweep_providers t ps w1 in (sweep_one p names rest, w2))
    else (let (rest, w1) = sweep_providers t ps w in
        (record rest { providers = p ∷ rest.providers }, w1))

unfoldable pub find_provider : String → List ProviderRow → Option ProviderRow
find_provider id [] = none
find_provider id (p ∷ ps) = if p.id == id then some p else find_provider id ps

abbrev model_fail_threshold : ℤ
model_fail_threshold = pos 3

-- status.ok or status.category == "premium"
passes : DiscoveredModelStatus → Bool
passes s = s.is_ok || elim s.category [ premium ↦ true | fine ↦ false | _ ↦ false ]

passed_meta : DiscoveredModelStatus → Fields → Fields
passed_meta s meta =
    let zeroed = set "test_fail_count" (int (pos 0)) meta in
    elim s.category [ premium ↦ set "premium" (bool true) zeroed | fine ↦ zeroed | _ ↦ zeroed ]

-- a model after its test
unfoldable pub tested :
    (Value → Result ℤ) → Fields → DiscoveredModelStatus → ModelRow → Result ModelRow
unfolding passes passed_meta
tested int_of meta s m =
    if passes s then ok (record m { meta = encoded (dict (passed_meta s meta)) }) else (do
      count ← int_of (get_or "test_fail_count" (int (pos 0)) meta)
      let failed = count +ℤ pos 1 in
          let meta' = set "test_fail_count" (int failed) meta in
          ok (record m {
            meta = encoded (dict meta');
            is_active =
                m.is_active
                && not (
                    leb_ℤ model_fail_threshold failed && truthy (get "missing_from_listing" meta'));
          }))

-- one model of the second step
unfoldable pub check_model : Tools → List ProviderRow → ModelRow → World → Result ModelRow × World
unfolding endpoint_of
check_model t providers m w =
    if not m.is_active || truthy (get "premium" (load_meta m.meta))
    then (ok m, w)
    else elim (find_provider m.provider_id providers) [
      | none ↦ (ok m, w)
      | some p ↦
          let (status, w1) =
            test_provider_model t.parsed t.env (endpoint_of p) m.internal_model "cleanup" w in
          (tested t.int_of (load_meta m.meta) status m, w1)
    ]

then_cons : Result ModelRow → Result (List ModelRow) × World → Result (List ModelRow) × World
then_cons m (rest, w) = ((do m' ← m; ms ← rest; ok (m' ∷ ms)), w)

-- step 2; an exception of `int` ends the cleanup
unfoldable pub check_models :
    Tools → List ProviderRow → List ModelRow → World → Result (List ModelRow) × World
unfolding then_cons
check_models t providers [] w = (ok [], w)
check_models t providers (m ∷ ms) w =
    let (m', w1) = check_model t providers m w in
    let rest = check_models t providers ms w1 in
    elim m' [ raise e ↦ (raise e, w1) | ok row ↦ then_cons (ok row) rest ]

-- a model of a provider whose listing does not have it
unfoldable pub mark_missing : String → List String → ModelRow → ModelRow
mark_missing provider_id names m =
    let meta = load_meta m.meta in
    if m.provider_id == provider_id
      && m.is_active
      && not (any (λ name. name == m.internal_model) names)
      && not (truthy (get "missing_from_listing" meta))
    then record m { meta = encoded (dict (set "missing_from_listing" (bool true) meta)) }
    else m

mark_all : String → Result (List String) → List ModelRow → List ModelRow
mark_all provider_id (raise e) ms = ms
mark_all provider_id (ok names) [] = []
mark_all provider_id (ok names) (m ∷ ms) =
    mark_missing provider_id names m ∷ mark_all provider_id (ok names) ms

-- step 2b
unfoldable pub mark_providers :
    Tools → List ProviderRow → List ModelRow → World → List ModelRow × World
unfolding endpoint_of mark_all
mark_providers t [] ms w = (ms, w)
mark_providers t (p ∷ ps) ms w =
    let (names, w1) = discover_provider_models t.codec t.env (endpoint_of p) "cleanup" w in
    mark_providers t ps (mark_all p.id names ms) w1
