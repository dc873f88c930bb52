-- ===== src/Admin/Providers.antt =====
-- The endpoints for providers, their keys and models of app/api/v1/admin_routes.py. The id of a new
-- row is an argument; the foreign keys of app/models.py are enforced, as app/core/db.py asks for.
pub mod Laws
use demumumind_panel.Shared.{
  ℕ, String, Bool, true, false, not, ◌&&◌, Option, none, some, List, [], ◌∷◌, ◌++◌, ◌==◌, any, keep,
  map, ltb, ◌-◌, if◌then◌else◌,
}
use demumumind_panel.Text.{◌+s◌, nonempty, prefix_of, drop_chars, count_chars}
use demumumind_panel.Json.{Value}
use demumumind_panel.Errors.{Result, ok, raise, app, AppError, not_found_error}
use demumumind_panel.Manager.{ProviderRow, ModelRow}
use demumumind_panel.Manager.Write.{
  CreateProviderRequest, CreateModelRequest, UpdateProviderRequest, insert_provider,
  update_provider, insert_model,
}
use demumumind_panel.Admin.{ProviderKey, Admin, refreshed}

-- AppError(409, "duplicate", …)
unfoldable pub duplicate : String → AppError
duplicate message = record {
  status_code = 409;
  code = "duplicate";
  message = message;
  detail = none;
  request_id = none;
}

-- whether `_provider_or_404` finds the provider
unfoldable pub has_provider : String → List ProviderRow → Bool
has_provider id rows = any (λ p. p.id == id) rows

-- an endpoint that begins with `_provider_or_404`
unfoldable pub with_provider :
    {A : Type 0} → String → (Admin → Result A × Admin) → Admin → Result A × Admin
with_provider id rest a =
    if has_provider id a.providers
    then rest a
    else (raise (app (not_found_error ("Provider not found: " +s id) none none)), a)

-- DELETE … WHERE id = …, with the models and the keys that refer to the row; the rows of usage and of
-- images, whose reference becomes null, are no part of this state
unfoldable pub without_provider : String → Admin → Admin
without_provider id a = record a {
  providers = keep (λ p. not (p.id == id)) a.providers;
  models = keep (λ m. not (m.provider_id == id)) a.models;
  provider_keys = keep (λ k. not (k.provider_id == id)) a.provider_keys;
}

-- f"{key[:6]}…{key[-4:]}" if len(key) > 12 else "…"
unfoldable pub masked : String → String
masked key =
    if ltb 12 (count_chars key)
    then prefix_of 6 key +s "…" +s drop_chars (count_chars key - 4) key
    else "…"

pub record ProviderKeyOut : Type 0 where
  pub id : String
  pub provider_id : String
  pub api_key_masked : String
  pub is_active : Bool

key_out : ProviderKey → ProviderKeyOut
unfolding masked
key_out k = record {
  id = k.id;
  provider_id = k.provider_id;
  api_key_masked = masked k.api_key;
  is_active = k.is_active;
}

module _ (to_str : Value → String) where
  -- `create_provider`; the column `name` is unique
  unfoldable pub create_provider : String → CreateProviderRequest → Admin → Result Bool × Admin
  unfolding duplicate
  create_provider id body a =
      if any (λ p. p.name == body.name) a.providers
      then (raise (app (duplicate "Provider name already exists")), a)
      else refreshed to_str true (record a { providers = insert_provider id body a.providers })

  -- `update_provider_endpoint`
  unfoldable pub update_provider_endpoint :
      String → UpdateProviderRequest → Admin → Result Bool × Admin
  update_provider_endpoint id body =
      with_provider id
        λ a. refreshed to_str true (record a { providers = update_provider id body a.providers })

  -- `delete_provider`
  unfoldable pub delete_provider : String → Admin → Result Bool × Admin
  delete_provider id = with_provider id λ a. refreshed to_str true (without_provider id a)

  -- `add_provider_key`
  unfoldable pub add_provider_key : String → String → String → Admin → Result ProviderKeyOut × Admin
  unfolding key_out
  add_provider_key id provider_id api_key = with_provider provider_id λ a.
      let k : ProviderKey = record {
        id = id;
        provider_id = provider_id;
        api_key = api_key;
        is_active = true;
      } in
      refreshed to_str (key_out k) (record a { provider_keys = a.provider_keys ++ k ∷ [] })

  -- `delete_provider_key`
  unfoldable pub delete_provider_key : String → String → Admin → Result Bool × Admin
  delete_provider_key provider_id key_id = with_provider provider_id λ a.
      if any (λ k. k.id == key_id && k.provider_id == provider_id) a.provider_keys
      then refreshed to_str true (record a {
        provider_keys =
            keep (λ k. not (k.id == key_id && k.provider_id == provider_id)) a.provider_keys;
      })
      else (raise (app (not_found_error ("Provider key not found: " +s key_id) none none)), a)

  -- `create_model`; an alias stands once for a provider
  unfoldable pub create_model : String → CreateModelRequest → Admin → Result Bool × Admin
  unfolding duplicate
  create_model id body = with_provider body.provider_id λ a.
      if any (λ m. m.provider_id == body.provider_id && m.user_model_id == body.user_model_id)
        a.models
      then (raise (app (duplicate "user_model_id already exists")), a)
      else refreshed to_str true (record a { models = insert_model id body a.models })

  -- `delete_model`
  unfoldable pub delete_model : String → Admin → Result Bool × Admin
  delete_model id a =
      if any (λ m. m.id == id) a.models
      then refreshed to_str true (record a { models = keep (λ m. not (m.id == id)) a.models })
      else (raise (app (not_found_error ("Model not found: " +s id) none none)), a)

-- the first entry of `list_provider_keys`
primary_out : ProviderRow → List ProviderKeyOut
unfolding masked
primary_out p = elim p.api_key [
  | none ↦ []
  | some key ↦
      if nonempty key
      then record {
        id = "primary";
        provider_id = p.id;
        api_key_masked = masked key +s " (primary)";
        is_active = p.is_active;
      }
        ∷ []
      else []
]

find_provider : String → List ProviderRow → Option ProviderRow
find_provider id [] = none
find_provider id (p ∷ ps) = if p.id == id then some p else find_provider id ps

-- `list_provider_keys`
unfoldable pub list_provider_keys : String → Admin → Result (List ProviderKeyOut)
unfolding primary_out key_out find_provider
list_provider_keys id a = elim (find_provider id a.providers) [
  | none ↦ raise (app (not_found_error ("Provider not found: " +s id) none none))
  | some p ↦ ok (primary_out p ++ map key_out (keep (λ k. k.provider_id == id) a.provider_keys))
]
