-- ===== src/Manager/Reload.antt =====
-- `_reload` of app/services/provider_manager.py. What has been assigned when a row's metadata is no
-- JSON stays assigned.
pub mod Priority
pub mod Keyed
use demumumind_panel.Shared.{
  ℕ, String, Bool, true, false, Option, none, some, List, [], ◌∷◌, ◌++◌, ◌==◌, ◌&&◌, ltb,
  if◌then◌else◌,
}
use demumumind_panel.Shared.Dict.{Dict, lookup, insert}
use demumumind_panel.Json.{Value, Fields, end, field, str, dict, JsonText, loads}
use demumumind_panel.Errors.{Result, ok, raise, ◌>>=◌}
use demumumind_panel.Manager.{
  ProviderRow, ModelRow, ProviderRecord, ModelRecord, Manager, provider_from_orm, model_from_orm,
}

-- A row of `provider_keys`.
pub record ProviderKeyRow : Type 0 where
  pub provider_id : String
  pub api_key : String
  pub is_active : Bool

-- What `_reload` reads: the tables, each in the order in which the database returns it; of the table
-- `api_keys` the hash and the mapping.
pub record Db : Type 0 where
  pub providers : List ProviderRow
  pub models : List ModelRow
  pub api_keys : List (String × JsonText)
  pub provider_keys : List ProviderKeyRow

-- {p.id: ProviderRecord.from_orm(p) for p in providers}
unfoldable pub load_providers :
    List ProviderRow → Dict ProviderRecord → Result (Dict ProviderRecord)
load_providers [] d = ok d
load_providers (p ∷ ps) d = do r ← provider_from_orm p; load_providers ps (insert r.id r d)

-- `_model_priority`
unfoldable pub model_priority : ModelRecord → Dict ProviderRecord → ℕ
model_priority r providers = elim (lookup r.provider_id providers) [
  | none ↦ 1
  | some p ↦ if p.is_default then 0 else 1
]

-- self._models_by_provider[(pid, alias)] = rec
unfoldable pub put_alias :
    String
    → String
    → ModelRecord
    → List ((String × String) × ModelRecord)
    → List ((String × String) × ModelRecord)
put_alias pid alias rec [] = ((pid, alias), rec) ∷ []
put_alias pid alias rec (((p, a), r) ∷ d) =
    if p == pid && a == alias then ((p, a), rec) ∷ d else ((p, a), r) ∷ put_alias pid alias rec d

-- the update of `self._models` by an active record
unfoldable pub add_global : Dict ProviderRecord → ModelRecord → Dict ModelRecord → Dict ModelRecord
add_global providers rec models =
    if rec.is_active
    then elim (lookup rec.user_model_id models) [
      | none ↦ insert rec.user_model_id rec models
      | some existing ↦
          if ltb (model_priority rec providers) (model_priority existing providers)
          then insert rec.user_model_id rec models
          else models
    ]
    else models

-- the body of the loop over the models
unfoldable pub add_model : ModelRecord → Manager → Manager
add_model rec m = record m {
  models_by_provider = put_alias rec.provider_id rec.user_model_id rec m.models_by_provider;
  models = add_global m.providers rec m.models;
}

unfoldable pub load_models : List ModelRow → Manager → Result (Unit {0}) × Manager
load_models [] m = (ok tt, m)
load_models (row ∷ rows) m = elim (model_from_orm row) [
  | ok rec ↦ load_models rows (add_model rec m)
  | raise e ↦ (raise e, m)
]

-- {str(k): str(v) for k, v in mapping.items()}
unfoldable pub mapping_of : (Value → String) → Fields → Dict String
mapping_of to_str end = []
mapping_of to_str (field k v d) = (k, elim v [ str s ↦ s | w ↦ to_str w ]) ∷ mapping_of to_str d

set_mapping : (Value → String) → String → Value → Manager → Manager
set_mapping to_str kh (dict d) m = record m {
  key_mappings = insert kh (mapping_of to_str d) m.key_mappings;
}
set_mapping to_str kh (str s) m = m
set_mapping to_str kh _ m = m

unfoldable pub load_mappings :
    (Value → String) → List (String × JsonText) → Manager → Result (Unit {0}) × Manager
unfolding set_mapping
load_mappings to_str [] m = (ok tt, m)
load_mappings to_str ((kh, raw) ∷ rows) m = elim (loads raw) [
  | ok mapping ↦ load_mappings to_str rows (set_mapping to_str kh mapping m)
  | raise e ↦ (raise e, m)
]

-- `setdefault(pk.provider_id, []).append(pk.api_key)`
unfoldable pub add_key : ProviderKeyRow → Manager → Manager
add_key pk m = record m {
  provider_keys =
      insert pk.provider_id
        (elim (lookup pk.provider_id m.provider_keys) [ none ↦ [] | some ks ↦ ks ]
          ++ pk.api_key ∷ [])
        m.provider_keys;
}

-- the loop over the rows with `is_active == 1`
unfoldable pub load_keys : List ProviderKeyRow → Manager → Manager
load_keys [] m = m
load_keys (pk ∷ pks) m = load_keys pks (if pk.is_active then add_key pk m else m)

then_keys : List ProviderKeyRow → Result (Unit {0}) × Manager → Result (Unit {0}) × Manager
then_keys pks (ok _, m) = (ok tt, load_keys pks (record m { provider_keys = [] }))
then_keys pks (raise e, m) = (raise e, m)

then_mappings : (Value → String) → Db → Result (Unit {0}) × Manager → Result (Unit {0}) × Manager
then_mappings to_str db (ok _, m) =
    then_keys db.provider_keys (load_mappings to_str db.api_keys (record m { key_mappings = [] }))
then_mappings to_str db (raise e, m) = (raise e, m)

-- `_reload`
unfoldable pub reload : (Value → String) → Db → Manager → Result (Unit {0}) × Manager
unfolding then_keys then_mappings
reload to_str db m = elim (load_providers db.providers []) [
  | ok providers ↦ then_mappings to_str db (
      load_models db.models
        (record m { providers = providers; models = []; models_by_provider = [] }))
  | raise e ↦ (raise e, m)
]
