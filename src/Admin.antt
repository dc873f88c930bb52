-- ===== src/Admin.antt =====
-- The tables that the endpoints of app/api/v1/admin_routes.py change, in the order of their rows, and
-- the manager that they refresh after each change. Who may call them is `require_panel`.
pub mod Keys
pub mod Providers
pub mod Mcp
mod Examples
use demumumind_panel.Shared.{
  ℕ, String, Bool, Option, none, some, List, [], ◌∷◌, map, keep, take, drop, length, ◌==◌, ℤ, false,
  if◌then◌else◌,
}
use demumumind_panel.Json.{Value, JsonText}
use demumumind_panel.Errors.{Result, ok, raise}
use demumumind_panel.Manager.{ProviderRow, ModelRow, Manager, present}
use demumumind_panel.Manager.Reload.{Db, reload}

-- a row of `api_keys`
pub record ApiKey : Type 0 where
  pub id : String
  pub key_hash : String
  pub group_id : Option String
  pub model_mapping : JsonText
  pub monthly_budget : ℤ

-- a row of `provider_keys`
pub record ProviderKey : Type 0 where
  pub id : String
  pub provider_id : String
  pub api_key : String
  pub is_active : Bool

pub record Admin : Type 0 where
  pub providers : List ProviderRow
  pub models : List ModelRow
  pub api_keys : List ApiKey
  pub provider_keys : List ProviderKey
  pub manager : Manager

-- what a reload reads
unfoldable pub db_of : Admin → Db
db_of a = record {
  providers = a.providers;
  models = a.models;
  api_keys = map (λ k. (k.key_hash, k.model_mapping)) a.api_keys;
  provider_keys =
      map
        (λ k. record { provider_id = k.provider_id; api_key = k.api_key; is_active = k.is_active })
        a.provider_keys;
}

-- the hashes that `client_key_hash` looks in
abbrev pub hashes : Admin → List String
hashes a = map (λ k. k.key_hash) a.api_keys

-- await get_manager().refresh(), and the answer after it; what was committed stays
unfoldable pub refreshed : {A : Type 0} → (Value → String) → A → Admin → Result A × Admin
refreshed to_str answer a =
    let (r, m) = reload to_str (db_of a) a.manager in
    (elim r [ ok _ ↦ ok answer | raise e ↦ raise e ], record a { manager = m })

pub record PaginatedResponse (A : Type 0) : Type 0 where
  pub items : List A
  pub total : ℕ
  pub limit : ℕ
  pub offset : ℕ

-- Model.provider_id == provider_id
some_is : Option String → String → Bool
some_is none id = false
some_is (some x) id = id == x

-- the rows behind `offset`, `limit` at most, and the number of all
unfoldable pub page : {A : Type 0} → ℕ → ℕ → List A → PaginatedResponse A
page limit offset rows = record {
  items = take limit (drop offset rows);
  total = length rows;
  limit = limit;
  offset = offset;
}

-- `list_providers`, `list_models` and `list_keys`, on rows in the order of their creation
unfoldable pub list_providers : ℕ → ℕ → Admin → PaginatedResponse ProviderRow
list_providers limit offset a = page limit offset a.providers

unfoldable pub list_models : ℕ → ℕ → Option String → Admin → PaginatedResponse ModelRow
unfolding some_is
list_models limit offset provider_id a = page limit offset (
    if present provider_id
    then keep (λ m. some_is provider_id m.provider_id) a.models
    else a.models)

unfoldable pub list_keys : ℕ → ℕ → Admin → PaginatedResponse ApiKey
list_keys limit offset a = page limit offset a.api_keys
