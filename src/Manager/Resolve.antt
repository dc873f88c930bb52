-- ===== src/Manager/Resolve.antt =====
-- `resolve`, `_build_resolved` and `list_available_models_detailed` of
-- app/services/provider_manager.py; app/services/router.py only passes its calls on to these.
pub mod Laws
pub mod Paging
use demumumind_panel.Shared.{
  ℕ, ◌+◌, String, Bool, true, false, not, ◌&&◌, ◌||◌, Option, none, some, List, [], ◌∷◌, map, ◌==◌,
  length, take, drop, keep, if◌then◌else◌,
}
use demumumind_panel.Shared.Dict.{Dict, lookup, has}
use demumumind_panel.Text.{◌+s◌, contains, partition, nonempty}
use demumumind_panel.Json.{Value, Fields}
use demumumind_panel.Errors.{Result, ok, raise, other, ◌>>=◌}
use demumumind_panel.Manager.{
  ProviderRecord, ModelRecord, ResolvedModel, Manager, pricing, is_free, limits, kind, present,
}

pub resolved_from : (Value → String) → ModelRecord → String → ProviderRecord → ResolvedModel
resolved_from to_str rec target p = record {
  user_model_id = target;
  internal_model = rec.internal_model;
  provider_id = p.id;
  provider_name = p.name;
  base_url = p.base_url;
  protocol = p.protocol;
  api_key = p.api_key;
  model_id = some rec.id;
  pricing = pricing rec;
  is_free = is_free rec;
  limits = limits rec;
  kind = kind to_str rec;
}

-- `_build_resolved`
unfoldable pub build_resolved :
    (Value → String) → ModelRecord → String → Manager → Result ResolvedModel
unfolding resolved_from
build_resolved to_str rec target m = elim (lookup rec.provider_id m.providers) [
  | none ↦ raise (other "RuntimeError" ("provider " +s rec.provider_id +s " missing"))
  | some p ↦ ok (resolved_from to_str rec target p)
]

-- the per-key override of the alias
unfoldable pub target_of : String → Option String → Manager → String
target_of user_model_id none m = user_model_id
target_of user_model_id (some key_hash) m =
    if nonempty key_hash
    then elim (lookup key_hash m.key_mappings) [
      | none ↦ user_model_id
      | some mapping ↦ elim (lookup user_model_id mapping) [ none ↦ user_model_id | some t ↦ t ]
    ]
    else user_model_id

-- the test in the loop over `_models_by_provider`
unfoldable pub is_explicit :
    String → String → Dict ProviderRecord → String → String → ModelRecord → Bool
is_explicit provider_name alias providers pid alias_key rec =
    alias_key == alias && elim (lookup pid providers) [
      | none ↦ false
      | some p ↦ p.name == provider_name && rec.is_active
    ]

unfoldable pub find_explicit :
    String
    → String
    → Dict ProviderRecord
    → List ((String × String) × ModelRecord)
    → Option ModelRecord
find_explicit provider_name alias providers [] = none
find_explicit provider_name alias providers (((pid, alias_key), rec) ∷ rest) =
    if is_explicit provider_name alias providers pid alias_key rec
    then some rec
    else find_explicit provider_name alias providers rest

-- "provider-name/model", for a target that is no alias of the global table
unfoldable pub explicit : String → Manager → Option ModelRecord
explicit target m =
    let (provider_name, slash, alias) = partition b'/' target in
    if not (has target m.models) && contains target "/"
    then find_explicit provider_name alias m.providers m.models_by_provider
    else none

unfoldable pub is_usable : Option ProviderRecord → Bool
is_usable none = false
is_usable (some p) = p.is_active

pub resolve_global : (Value → String) → String → Manager → Result (Option ResolvedModel)
resolve_global to_str target m = elim (lookup target m.models) [
  | none ↦ ok none
  | some rec ↦
      if rec.is_active && is_usable (lookup rec.provider_id m.providers)
      then (do r ← build_resolved to_str rec target m; ok (some r))
      else ok none
]

pub resolve_target : (Value → String) → String → Manager → Result (Option ResolvedModel)
resolve_target to_str target m = elim (explicit target m) [
  | some rec ↦ do r ← build_resolved to_str rec target m; ok (some r)
  | none ↦ resolve_global to_str target m
]

-- `resolve`
unfoldable pub resolve :
    (Value → String) → String → Option String → Manager → Result (Option ResolvedModel)
unfolding resolve_target resolve_global
resolve to_str user_model_id key_hash m =
    resolve_target to_str (target_of user_model_id key_hash m) m

-- One item of the listing; the ids of the provider are missing if it is not loaded.
pub record ListedModel : Type 0 where
  pub id : String
  pub user_model_id : String
  pub internal_model : String
  pub is_active : Bool
  pub metadata : Fields
  pub provider : Option ProviderRecord

pub record Page {ℓ} (A : Type ℓ) : Type ℓ where
  pub items : List A
  pub total : ℕ
  pub limit : ℕ
  pub offset : ℕ

pub listed : Manager → ModelRecord → ListedModel
listed m r = record {
  id = r.id;
  user_model_id = r.user_model_id;
  internal_model = r.internal_model;
  is_active = r.is_active;
  metadata = r.metadata;
  provider = lookup r.provider_id m.providers;
}

by_id : Option String → ModelRecord → Bool
by_id none r = true
by_id (some provider_id) r = not (nonempty provider_id) || r.provider_id == provider_id

has_name : String → Option ProviderRecord → Bool
has_name name none = false
has_name name (some p) = p.name == name

by_name : Option String → Manager → ModelRecord → Bool
by_name none m r = true
by_name (some name) m r = not (nonempty name) || has_name name (lookup r.provider_id m.providers)

-- the models that the listing pages through
unfoldable pub listed_models : Option String → Option String → Manager → List ModelRecord
unfolding by_id by_name has_name
listed_models provider_id provider_name m =
    keep (by_name provider_name m)
      (keep (by_id provider_id) (keep (λ r. r.is_active) (map (λ e. e.1) m.models)))

-- `list_available_models_detailed`; a page is a slice, so it is short where the list ends
unfoldable pub list_available_models_detailed :
    ℕ → ℕ → Option String → Option String → Manager → Page ListedModel
unfolding listed
list_available_models_detailed limit offset provider_id provider_name m =
    let all_models = listed_models provider_id provider_name m in
    record {
      items = map (listed m) (take limit (drop offset all_models));
      total = length all_models;
      limit = limit;
      offset = offset;
    }
