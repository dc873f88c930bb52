-- ===== src/Manager/Reload/Keyed.antt =====
-- Every entry of `_models_by_provider` stands under the ids of its record, after any reload.
use demumumind_panel.Shared.{
  String, ◌≡◌, refl, ◌∙◌, List, [], ◌∷◌, arith, eq_iff, All, if◌then◌else◌, inl, inr,
}
use demumumind_panel.Json.{Value, str, dict, JsonText, loads}
use demumumind_panel.Errors.{Result, ok, raise}
use demumumind_panel.Manager.{ModelRecord, ModelRow, Manager, model_from_orm}
use demumumind_panel.Manager.Reload.{
  Db, ProviderKeyRow, put_alias, add_model, load_models, set_mapping, load_mappings, add_key,
  load_keys, then_keys, then_mappings, load_providers, reload,
}
use demumumind_panel.Manager.Reload.Priority.{Result-cases}

abbrev pub KeyedEntry : (String × String) × ModelRecord → Type 0
KeyedEntry ((pid, alias), rec) = (rec.provider_id ≡ pid) × (rec.user_model_id ≡ alias)

abbrev pub Keyed : Manager → Type 0
Keyed m = All KeyedEntry m.models_by_provider

put_alias-Keyed :
    (rec : ModelRecord) (d : List ((String × String) × ModelRecord))
    → All KeyedEntry d
    → All KeyedEntry (put_alias rec.provider_id rec.user_model_id rec d)
unfolding put_alias
put_alias-Keyed rec [] h = ((refl, refl), tt)
put_alias-Keyed rec (((p, a), r) ∷ d) h =
    ground (arith, eq_iff p rec.provider_id, eq_iff a rec.user_model_id, put_alias-Keyed rec d h.1)

load_models-Keyed : (rows : List ModelRow) (m : Manager) → Keyed m → Keyed (load_models rows m).1
unfolding load_models add_model
load_models-Keyed [] m h = h
load_models-Keyed (row ∷ rows) m h = elim (Result-cases (model_from_orm row)) [
  | inl (r, good) ↦
      rw (good, load_models)
        (load_models-Keyed rows (add_model r m) (put_alias-Keyed r m.models_by_provider h))
  | inr (e, bad) ↦ rw (bad, load_models) h
]

set_mapping-aliases :
    (to_str : Value → String) (kh : String) (v : Value) (m : Manager)
    → (set_mapping to_str kh v m).models_by_provider ≡ m.models_by_provider
unfolding set_mapping
set_mapping-aliases to_str kh (dict d) m = refl
set_mapping-aliases to_str kh (str s) m = refl
set_mapping-aliases to_str kh _ m = refl

load_mappings-aliases :
    (to_str : Value → String) (rows : List (String × JsonText)) (m : Manager)
    → (load_mappings to_str rows m).1.models_by_provider ≡ m.models_by_provider
unfolding load_mappings
load_mappings-aliases to_str [] m = refl
load_mappings-aliases to_str ((kh, raw) ∷ rows) m = elim (Result-cases (loads raw)) [
  | inl (v, good) ↦
      rw (good, load_mappings)
        (load_mappings-aliases to_str rows (set_mapping to_str kh v m)
          ∙ set_mapping-aliases to_str kh v m)
  | inr (e, bad) ↦ rw (bad, load_mappings)
]

load_keys-aliases :
    (pks : List ProviderKeyRow) (m : Manager)
    → (load_keys pks m).models_by_provider ≡ m.models_by_provider
unfolding load_keys add_key
load_keys-aliases [] m = refl
load_keys-aliases (pk ∷ pks) m =
    load_keys-aliases pks (if pk.is_active then add_key pk m else m) ∙ ground arith

then_keys-aliases :
    (pks : List ProviderKeyRow) (r : Result (Unit {0}) × Manager)
    → (then_keys pks r).1.models_by_provider ≡ r.1.models_by_provider
unfolding then_keys
then_keys-aliases pks (ok _, m) = load_keys-aliases pks (record m { provider_keys = [] })
then_keys-aliases pks (raise e, m) = refl

then_mappings-aliases :
    (to_str : Value → String) (db : Db) (r : Result (Unit {0}) × Manager)
    → (then_mappings to_str db r).1.models_by_provider ≡ r.1.models_by_provider
unfolding then_mappings
then_mappings-aliases to_str db (raise e, m) = refl
then_mappings-aliases to_str db (ok _, m) =
    then_keys-aliases db.provider_keys
      (load_mappings to_str db.api_keys (record m { key_mappings = [] }))
    ∙ load_mappings-aliases to_str db.api_keys (record m { key_mappings = [] })

-- A reload, whether it succeeds or stops at a malformed row, keeps every entry of
-- `_models_by_provider` under the provider id and the alias of its record.
pub reload-Keyed :
    (to_str : Value → String) (db : Db) (m : Manager) → Keyed m → Keyed (reload to_str db m).1
unfolding reload
reload-Keyed to_str db m h = elim (Result-cases (load_providers db.providers [])) [
  | inl (providers, good) ↦
      let start : Manager = record m {
        providers = providers;
        models = [];
        models_by_provider = [];
      } in
      rw (good, reload, then_mappings-aliases to_str db (load_models db.models start))
        (load_models-Keyed db.models start tt)
  | inr (e, bad) ↦ rw (bad, reload) h
]
