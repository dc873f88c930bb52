-- ===== src/Manager.antt =====
-- app/services/provider_manager.py: the records of `ProviderManager`, the state that it keeps and
-- the rows of app/models.py that it reads. The children follow its methods.
pub mod Reload
pub mod Keys
pub mod Resolve
pub mod Pricing
pub mod Write
mod Examples
use demumumind_panel.Shared.{
  ℕ, ℤ, String, Bool, true, false, Option, none, some, List, [], ◌∷◌, ◌==◌, ◌&&◌, if◌then◌else◌,
}
use demumumind_panel.Shared.Dict.{Dict, lookup, insert}
use demumumind_panel.Text.{nonempty}
use demumumind_panel.Json.{
  Value, Fields, null, bool, int, float, str, list, dict, end, JsonText, loads, get, get_or, truthy,
  number?, dict_or_empty,
}
use demumumind_panel.Errors.{Result, ok, raise, ◌>>=◌}

-- Rows of the tables `providers` and `models`; a flag column is a Boolean.
pub record ProviderRow : Type 0 where
  pub id : String
  pub name : String
  pub base_url : String
  pub api_key : Option String
  pub protocol : String
  pub is_default : Bool
  pub is_active : Bool
  pub meta : JsonText

pub record ModelRow : Type 0 where
  pub id : String
  pub provider_id : String
  pub user_model_id : String
  pub internal_model : String
  pub is_active : Bool
  pub meta : JsonText

pub record ProviderRecord : Type 0 where
  pub id : String
  pub name : String
  pub base_url : String
  pub api_key : Option String
  pub protocol : String
  pub is_default : Bool
  pub is_active : Bool
  pub metadata : Fields

pub record ModelRecord : Type 0 where
  pub id : String
  pub provider_id : String
  pub user_model_id : String
  pub internal_model : String
  pub is_active : Bool
  pub metadata : Fields

-- `ProviderRecord.from_orm`
unfoldable pub provider_from_orm : ProviderRow → Result ProviderRecord
unfolding loads dict_or_empty
provider_from_orm p = do
  meta ← loads p.meta
  ok (record {
    id = p.id;
    name = p.name;
    base_url = p.base_url;
    api_key = p.api_key;
    protocol = p.protocol;
    is_default = p.is_default;
    is_active = p.is_active;
    metadata = dict_or_empty meta;
  })

-- `ModelRecord.from_orm`
unfoldable pub model_from_orm : ModelRow → Result ModelRecord
unfolding loads dict_or_empty
model_from_orm m = do
  meta ← loads m.meta
  ok (record {
    id = m.id;
    provider_id = m.provider_id;
    user_model_id = m.user_model_id;
    internal_model = m.internal_model;
    is_active = m.is_active;
    metadata = dict_or_empty meta;
  })

-- A price list, by "prompt", "completion" and "request".
abbrev pub Pricing : Type 0
Pricing = Dict ℤ

add_price : Fields → String → Pricing → Pricing
add_price raw key out = elim (number? (get key raw)) [ none ↦ out | some x ↦ insert key x out ]

pub prices : Fields → Pricing
prices raw = add_price raw "request" (add_price raw "completion" (add_price raw "prompt" []))

some_prices : Pricing → Option Pricing
some_prices [] = none
some_prices (p ∷ ps) = some (p ∷ ps)

pub pricing_of : Value → Option Pricing
unfolding prices some_prices add_price
pricing_of (dict raw) = some_prices (prices raw)
pricing_of (str s) = none
pricing_of _ = none

-- the properties `pricing`, `is_free`, `limits` and `kind` of `ModelRecord`
unfoldable pub pricing : ModelRecord → Option Pricing
unfolding pricing_of
pricing r = pricing_of (get "pricing" r.metadata)

unfoldable pub is_free : ModelRecord → Bool
is_free r = truthy (get "free" r.metadata)

limits_of : Value → Option Fields
limits_of (dict end) = none
limits_of (str s) = none
limits_of (dict d) = some d
limits_of _ = none

unfoldable pub limits : ModelRecord → Option Fields
unfolding limits_of
limits r = limits_of (get "limits" r.metadata)

-- `str(v)`, which is a parameter where `v` is no text
unfoldable pub kind : (Value → String) → ModelRecord → String
kind to_str r = elim (get_or "kind" (str "chat") r.metadata) [ str s ↦ s | v ↦ to_str v ]

pub record ResolvedModel : Type 0 where
  pub user_model_id : String
  pub internal_model : String
  pub provider_id : String
  pub provider_name : String
  pub base_url : String
  pub protocol : String
  pub api_key : Option String
  pub model_id : Option String
  pub pricing : Option Pricing
  pub is_free : Bool
  pub limits : Option Fields
  pub kind : String

-- The state of `ProviderManager`; times are those of `time.monotonic()`, as in the cache.
pub record Manager : Type 0 where
  pub providers : Dict ProviderRecord
  pub models : Dict ModelRecord
  -- by provider id and alias
  pub models_by_provider : List ((String × String) × ModelRecord)
  pub key_mappings : Dict (Dict String)
  pub provider_keys : Dict (List String)
  pub rr_counter : Dict ℕ
  pub key_cooldown : Dict ℕ

unfoldable pub init : Manager
init = record {
  providers = [];
  models = [];
  models_by_provider = [];
  key_mappings = [];
  provider_keys = [];
  rr_counter = [];
  key_cooldown = [];
}

-- bool(s) of an optional text
unfoldable pub present : Option String → Bool
unfolding nonempty
present none = false
present (some s) = nonempty s
