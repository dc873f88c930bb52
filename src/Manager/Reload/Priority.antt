-- ===== src/Manager/Reload/Priority.antt =====
-- The global table of models after a reload: for each alias the first active model of a default
-- provider, and without one the first active model.
use demumumind_panel.Shared.{
  String, ◌≡◌, refl, ap, ◌∙◌, Bool, false, Option, none, some, List, [], ◌∷◌, arith, ◌==◌, eq_iff,
  ◌&&◌, ltb, inl, inr, ◌⊎◌, if◌then◌else◌,
}
use demumumind_panel.Shared.Dict.{Dict, lookup, lookup-insert}
use demumumind_panel.Json.{Value, str, dict, JsonText, loads}
use demumumind_panel.Errors.{Exception, Result, ok, raise}
use demumumind_panel.Manager.{ProviderRecord, ModelRow, ModelRecord, Manager, model_from_orm}
use demumumind_panel.Manager.Reload.{
  Db, ProviderKeyRow, add_key, load_providers, load_models, add_model, add_global, model_priority,
  set_mapping, load_mappings, load_keys, reload, then_mappings, then_keys,
}

-- The first record of a list that passes a test.
abbrev pub first : (ModelRecord → Bool) → List ModelRecord → Option ModelRecord
first p [] = none
first p (r ∷ rs) = if p r then some r else first p rs

abbrev pub or_else : Option ModelRecord → Option ModelRecord → Option ModelRecord
or_else none b = b
or_else (some a) b = some a

abbrev pub is_candidate : String → ModelRecord → Bool
is_candidate alias r = r.is_active && r.user_model_id == alias

pub in_default : Dict ProviderRecord → ModelRecord → Bool
in_default providers r = elim (lookup r.provider_id providers) [
  | none ↦ false
  | some p ↦ p.is_default
]

-- The record that an alias should stand for.
abbrev pub best : Dict ProviderRecord → String → List ModelRecord → Option ModelRecord
best providers alias rs =
    or_else (first (λ r. is_candidate alias r && in_default providers r) rs)
      (first (is_candidate alias) rs)

-- The records of the rows before the first one whose metadata is no JSON.
abbrev pub loaded : List ModelRow → List ModelRecord
loaded [] = []
loaded (row ∷ rows) = elim (model_from_orm row) [ raise e ↦ [] | ok r ↦ r ∷ loaded rows ]

pub Result-cases {ℓ} :
    {A : Type ℓ} (r : Result A) → ((a : A) × (r ≡ ok a)) ⊎ ((e : Exception) × (r ≡ raise e))
Result-cases (ok a) = inl (a, refl)
Result-cases (raise e) = inr (e, refl)

loaded_ok :
    (row : ModelRow) (rows : List ModelRow) {r : ModelRecord}
    → model_from_orm row ≡ ok r
    → loaded (row ∷ rows) ≡ r ∷ loaded rows
loaded_ok row rows h = ground (arith, h)

loaded_raise :
    (row : ModelRow) (rows : List ModelRow) {e : Exception}
    → model_from_orm row ≡ raise e
    → loaded (row ∷ rows) ≡ []
loaded_raise row rows h = ground (arith, h)

-- What one record does to the entry of an alias.
update : Dict ProviderRecord → String → ModelRecord → Option ModelRecord → Option ModelRecord
update providers alias r cur =
    if is_candidate alias r
    then elim cur [
      | none ↦ some r
      | some e ↦
          if ltb (model_priority r providers) (model_priority e providers) then some r else some e
    ]
    else cur

update_all :
    Dict ProviderRecord → String → List ModelRecord → Option ModelRecord → Option ModelRecord
update_all providers alias [] cur = cur
update_all providers alias (r ∷ rs) cur =
    update_all providers alias rs (update providers alias r cur)

add_global-update :
    (providers : Dict ProviderRecord) (alias : String) (r : ModelRecord) (models : Dict ModelRecord)
    → lookup alias (add_global providers r models) ≡ update providers alias r (lookup alias models)
unfolding add_global update
add_global-update providers alias r models =
    ground (arith, lookup-insert r.user_model_id alias r models, eq_iff r.user_model_id alias)

priority-default :
    (providers : Dict ProviderRecord) (r : ModelRecord)
    → model_priority r providers ≡ (if in_default providers r then 0 else 1)
unfolding model_priority in_default
priority-default providers r = ground arith

-- An entry of a default provider stays, and another one yields to the first of a default provider.
update_all-some :
    (providers : Dict ProviderRecord) (alias : String) (rs : List ModelRecord) (e : ModelRecord)
    → update_all providers alias rs (some e) ≡ (
        if in_default providers e
        then some e
        else or_else (first (λ r. is_candidate alias r && in_default providers r) rs) (some e))
unfolding update_all update
update_all-some providers alias [] e = ground arith
update_all-some providers alias (r ∷ rs) e = ground (
  arith,
  priority-default providers r,
  priority-default providers e,
  update_all-some providers alias rs r,
  update_all-some providers alias rs e,
)

update_all-none :
    (providers : Dict ProviderRecord) (alias : String) (rs : List ModelRecord)
    → update_all providers alias rs none ≡ best providers alias rs
unfolding update_all update
update_all-none providers alias [] = refl
update_all-none providers alias (r ∷ rs) =
    ground (arith, update_all-some providers alias rs r, update_all-none providers alias rs)

load_models-lookup :
    (rows : List ModelRow) (alias : String) (m : Manager)
    → lookup alias (load_models rows m).1.models
      ≡ update_all m.providers alias (loaded rows) (lookup alias m.models)
unfolding load_models update_all
load_models-lookup [] alias m = refl
load_models-lookup (row ∷ rows) alias m = elim (Result-cases (model_from_orm row)) [
  | inl (r, good) ↦
      rw (good, load_models)
        (rw (loaded_ok row rows good) (
          load_models-lookup rows alias (add_model r m)
          ∙ (unfold add_model update_all in
              ap (update_all m.providers alias (loaded rows))
                (add_global-update m.providers alias r m.models))))
  | inr (e, bad) ↦ rw (bad, load_models) (rw (loaded_raise row rows bad) refl)
]

set_mapping-models :
    (to_str : Value → String) (kh : String) (v : Value) (m : Manager)
    → (set_mapping to_str kh v m).models ≡ m.models
unfolding set_mapping
set_mapping-models to_str kh (dict d) m = refl
set_mapping-models to_str kh (str s) m = refl
set_mapping-models to_str kh _ m = refl

load_mappings-models :
    (to_str : Value → String) (rows : List (String × JsonText)) (m : Manager)
    → (load_mappings to_str rows m).1.models ≡ m.models
unfolding load_mappings
load_mappings-models to_str [] m = refl
load_mappings-models to_str ((kh, raw) ∷ rows) m = elim (Result-cases (loads raw)) [
  | inl (v, good) ↦
      rw (good, load_mappings)
        (load_mappings-models to_str rows (set_mapping to_str kh v m)
          ∙ set_mapping-models to_str kh v m)
  | inr (e, bad) ↦ rw (bad, load_mappings)
]

load_keys-models : (pks : List ProviderKeyRow) (m : Manager) → (load_keys pks m).models ≡ m.models
unfolding load_keys add_key
load_keys-models [] m = refl
load_keys-models (pk ∷ pks) m =
    load_keys-models pks (if pk.is_active then add_key pk m else m) ∙ ground arith

then_keys-models :
    (pks : List ProviderKeyRow) (r : Result (Unit {0}) × Manager)
    → (then_keys pks r).1.models ≡ r.1.models
unfolding then_keys
then_keys-models pks (ok _, m) = load_keys-models pks (record m { provider_keys = [] })
then_keys-models pks (raise e, m) = refl

then_mappings-models :
    (to_str : Value → String) (db : Db) (r : Result (Unit {0}) × Manager)
    → (then_mappings to_str db r).1.models ≡ r.1.models
unfolding then_mappings
then_mappings-models to_str db (ok _, m) =
    then_keys-models db.provider_keys _
    ∙ load_mappings-models to_str db.api_keys (record m { key_mappings = [] })
then_mappings-models to_str db (raise e, m) = refl

-- Whatever the state before and the rest of the database, once the metadata of every provider is
-- JSON: after a reload an alias stands for the first active model of a default provider that has
-- it, without one for the first active model that has it, and for nothing if there is none. Only
-- the rows before the first model whose metadata is no JSON count: there the reload stops.
pub reload-models :
    (to_str : Value → String) (db : Db) (m : Manager) (alias : String)
    {providers : Dict ProviderRecord}
    → load_providers db.providers [] ≡ ok providers
    → lookup alias (reload to_str db m).1.models ≡ best providers alias (loaded db.models)
unfolding reload
reload-models to_str db m alias {providers} h =
    let start : Manager = record m {
      providers = providers;
      models = [];
      models_by_provider = [];
    } in
    rw (h, reload)
      (ap (lookup alias) (then_mappings-models to_str db (load_models db.models start))
        ∙ load_models-lookup db.models alias start
        ∙ (unfold lookup in update_all-none providers alias (loaded db.models)))
