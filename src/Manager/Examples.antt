-- ===== src/Manager/Examples.antt =====
-- A small database, the state that a reload makes of it, and the theorems on the manager there.
use demumumind_panel.Shared.{
  ℕ, ◌<◌, String, ◌≡◌, refl, Bool, true, false, Option, some, [], ◌∷◌, ◌++◌, map, arith, length,
  take, drop,
}
use demumumind_panel.Shared.Dict.{Dict, lookup, insert}
use demumumind_panel.Text.{nonempty}
use demumumind_panel.Json.{Value, end, str, blank, encoded, dict, loads, dict_or_empty, field}
use demumumind_panel.Errors.{ok}
use demumumind_panel.Manager.{
  ProviderRow, ModelRow, ProviderRecord, ModelRecord, ResolvedModel, Manager, init,
  provider_from_orm, model_from_orm, present,
}
use demumumind_panel.Manager.Reload.{
  Db, load_providers, load_models, add_model, add_global, model_priority, put_alias, load_mappings,
  load_keys, add_key, reload, mapping_of,
}
use demumumind_panel.Manager.Reload.Priority.{best, loaded, reload-models}
use demumumind_panel.Manager.Reload.Keyed.{Keyed, reload-Keyed}
use demumumind_panel.Manager.Keys.{active_keys, nth, is_ready, pick_key, count_of, primary}
use demumumind_panel.Manager.Keys.Pick.{At, after_take, pick_key_ready}
use demumumind_panel.Manager.Keys.Turn.{pick_many, pick_many_rotates}
use demumumind_panel.Manager.Keys.Retry.{retry_same_key}
use demumumind_panel.Manager.Resolve.{resolve, target_of}
use demumumind_panel.Manager.Resolve.Laws.{Outcome, resolve-Outcome}

abbrev to_str : Value → String
to_str v = "?"

abbrev provider_row : String → String → Bool → Bool → ProviderRow
provider_row id name is_default is_active = record {
  id = id;
  name = name;
  base_url = "http://x";
  api_key = some "a";
  protocol = "openai";
  is_default = is_default;
  is_active = is_active;
  meta = blank;
}

abbrev model_row : String → String → String → ModelRow
model_row id provider_id alias = record {
  id = id;
  provider_id = provider_id;
  user_model_id = alias;
  internal_model = alias;
  is_active = true;
  meta = blank;
}

-- The second provider is the default one, the third is switched off.
abbrev db : Db
db = record {
  providers =
      provider_row "p1" "acme" false true
      ∷ provider_row "p2" "beta" true true
      ∷ provider_row "p3" "off" false false
      ∷ [];
  models = model_row "m1" "p1" "gpt" ∷ model_row "m2" "p2" "gpt" ∷ model_row "m3" "p3" "solo" ∷ [];
  api_keys = ("hash", encoded (dict (field "fast" (str "gpt") end))) ∷ [];
  provider_keys =
      record { provider_id = "p1"; api_key = "b"; is_active = true }
      ∷ record { provider_id = "p1"; api_key = "c"; is_active = false }
      ∷ [];
}

abbrev provider : String → String → Bool → Bool → ProviderRecord
provider id name is_default is_active = record {
  id = id;
  name = name;
  base_url = "http://x";
  api_key = some "a";
  protocol = "openai";
  is_default = is_default;
  is_active = is_active;
  metadata = end;
}

abbrev model : String → String → String → ModelRecord
model id provider_id alias = record {
  id = id;
  provider_id = provider_id;
  user_model_id = alias;
  internal_model = alias;
  is_active = true;
  metadata = end;
}

abbrev provider_table : Dict ProviderRecord
provider_table =
    ("p1", provider "p1" "acme" false true)
    ∷ ("p2", provider "p2" "beta" true true)
    ∷ ("p3", provider "p3" "off" false false)
    ∷ []

abbrev state : Manager
state = record init {
  providers = provider_table;
  models = ("gpt", model "m2" "p2" "gpt") ∷ ("solo", model "m3" "p3" "solo") ∷ [];
  models_by_provider =
      (("p1", "gpt"), model "m1" "p1" "gpt")
      ∷ (("p2", "gpt"), model "m2" "p2" "gpt")
      ∷ (("p3", "solo"), model "m3" "p3" "solo")
      ∷ [];
  key_mappings = ("hash", ("fast", "gpt") ∷ []) ∷ [];
  provider_keys = ("p1", "b" ∷ []) ∷ [];
}

providers_load : load_providers db.providers [] ≡ ok provider_table
unfolding load_providers insert provider_from_orm
providers_load = refl

state_is_loaded : reload to_str db init ≡ (ok tt, state)
unfolding reload load_providers insert provider_from_orm init load_models model_from_orm add_model
    add_global put_alias lookup model_priority load_mappings mapping_of load_keys add_key loads
    dict_or_empty
state_is_loaded = refl

state-Keyed : Keyed state
state-Keyed = ((refl, refl), ((refl, refl), ((refl, refl), tt)))

two_keys : active_keys "p1" state ≡ "a" ∷ "b" ∷ []
unfolding active_keys present lookup primary nonempty
two_keys = refl

all_ready : (j : ℕ) → j < 2 → is_ready 0 (nth ("a" ∷ "b" ∷ []) j) state.key_cooldown ≡ true
unfolding is_ready count_of lookup init
all_ready j h = refl

reload-models_example :
    lookup "gpt" (reload to_str db init).1.models ≡ best provider_table "gpt" (loaded db.models)
reload-models_example = reload-models to_str db init "gpt" providers_load

reload-Keyed_example : Keyed (reload to_str db init).1
reload-Keyed_example = reload-Keyed to_str db init (unfold init in tt)

pick_key_ready_example :
    (i : ℕ) × (key : String) × At (active_keys "p1" state) i key
    × (is_ready 0 key state.key_cooldown ≡ true)
    × (pick_key 0 "p1" 1 state
        ≡ (some key, after_take "p1" i (length (active_keys "p1" state)) state))
pick_key_ready_example =
    pick_key_ready 0 "p1" 1 0 state (rw two_keys (omega arith))
      (unfold is_ready count_of lookup init in refl)

pick_many_rotates_example :
    pick_many 0 "p1" 2 state ≡ map some (drop 0 ("a" ∷ "b" ∷ []) ++ take 0 ("a" ∷ "b" ∷ []))
pick_many_rotates_example =
    pick_many_rotates 0 "p1" 0 state two_keys (omega arith) (unfold count_of lookup init in refl)
      all_ready

retry_same_key_example :
    (pick_key 0 "p1" 1 (pick_key 0 "p1" 0 state).1).0 ≡ (pick_key 0 "p1" 0 state).0
unfolding nth
retry_same_key_example =
    retry_same_key 0 0 "p1" "a" "b" state two_keys (all_ready 0 (omega arith))
      (all_ready 1 (omega arith)) (all_ready 0 (omega arith)) (all_ready 1 (omega arith))

resolve-Outcome_example :
    (o : Option ResolvedModel) × (resolve to_str "fast" (some "hash") state ≡ ok o)
    × Outcome to_str (target_of "fast" (some "hash") state) state o
resolve-Outcome_example = resolve-Outcome to_str "fast" (some "hash") state state-Keyed
