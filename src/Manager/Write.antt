-- ===== src/Manager/Write.antt =====
-- `insert_provider`, `update_provider` and `insert_model` of app/services/provider_manager.py on the
-- rows of the tables, without the refresh that follows. The id of a new row is an argument.
pub mod Default
pub mod Ids
mod Examples
use demumumind_panel.Shared.{
  ℕ, String, Bool, true, false, Option, none, some, List, [], ◌∷◌, ◌++◌, map, ◌==◌, if◌then◌else◌,
}
use demumumind_panel.Json.{Fields, dict, JsonText, encoded}
use demumumind_panel.Manager.{ProviderRow, ModelRow}

-- `CreateProviderRequest` and `CreateModelRequest`, the metadata being {} if there is none.
pub record CreateProviderRequest : Type 0 where
  pub name : String
  pub base_url : String
  pub api_key : Option String
  pub protocol : String
  pub is_default : Bool
  pub is_active : Bool
  pub metadata : Fields

pub record CreateModelRequest : Type 0 where
  pub provider_id : String
  pub user_model_id : String
  pub internal_model : String
  pub metadata : Fields
  pub is_active : Bool

-- `UpdateProviderRequest`: the fields that are set, a null of `is_default`, `is_active` or `metadata`
-- being false or {}. A null `base_url` or `protocol`, which the columns refuse, is not modelled.
pub record UpdateProviderRequest : Type 0 where
  pub base_url : Option String
  pub api_key : Option (Option String)
  pub protocol : Option String
  pub is_default : Option Bool
  pub is_active : Option Bool
  pub metadata : Option Fields

-- update(Provider).values(is_default=0)
clear_default : List ProviderRow → List ProviderRow
clear_default [] = []
clear_default (p ∷ ps) = record p { is_default = false } ∷ clear_default ps

created : String → CreateProviderRequest → ProviderRow
created id r = record {
  id = id;
  name = r.name;
  base_url = r.base_url;
  api_key = r.api_key;
  protocol = r.protocol;
  is_default = r.is_default;
  is_active = r.is_active;
  meta = encoded (dict r.metadata);
}

-- `insert_provider`
unfoldable pub insert_provider :
    String → CreateProviderRequest → List ProviderRow → List ProviderRow
unfolding clear_default created
insert_provider id r rows = (if r.is_default then clear_default rows else rows) ++ created id r ∷ []

or_old : {A : Type 0} → Option A → A → A
or_old none a = a
or_old (some b) a = b

meta_of : Option Fields → JsonText → JsonText
meta_of none old = old
meta_of (some d) old = encoded (dict d)

changed : UpdateProviderRequest → ProviderRow → ProviderRow
unfolding or_old meta_of
changed r p = record {
  id = p.id;
  name = p.name;
  base_url = or_old r.base_url p.base_url;
  api_key = or_old r.api_key p.api_key;
  protocol = or_old r.protocol p.protocol;
  is_default = or_old r.is_default p.is_default;
  is_active = or_old r.is_active p.is_active;
  meta = meta_of r.metadata p.meta;
}

change_row : String → UpdateProviderRequest → List ProviderRow → List ProviderRow
unfolding changed
change_row id r [] = []
change_row id r (p ∷ ps) = if p.id == id then changed r p ∷ ps else p ∷ change_row id r ps

makes_default : Option Bool → Bool
makes_default none = false
makes_default (some b) = b

-- `update_provider`, of the provider with the id
unfoldable pub update_provider :
    String → UpdateProviderRequest → List ProviderRow → List ProviderRow
unfolding change_row clear_default makes_default
update_provider id r rows =
    change_row id r (if makes_default r.is_default then clear_default rows else rows)

-- `insert_model`
unfoldable pub insert_model : String → CreateModelRequest → List ModelRow → List ModelRow
insert_model id r rows =
    rows
    ++ record {
      id = id;
      provider_id = r.provider_id;
      user_model_id = r.user_model_id;
      internal_model = r.internal_model;
      is_active = r.is_active;
      meta = encoded (dict r.metadata);
    }
      ∷ []
