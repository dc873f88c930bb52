-- ===== src/Admin/Keys.antt =====
-- The endpoints for client keys of app/api/v1/admin_routes.py. The id of a new row and the hexadecimal
-- digits of a fresh uuid4 are arguments; the group of a key is not looked up.
pub mod Laws
use demumumind_panel.Shared.{
  ℕ, String, Bool, true, false, Option, none, some, List, [], ◌∷◌, ◌++◌, ◌==◌, any, length, take,
  if◌then◌else◌, ℤ,
}
use demumumind_panel.Text.{◌+s◌}
use demumumind_panel.Json.{Value, Fields, dict, JsonText, encoded}
use demumumind_panel.Errors.{Result, ok, raise, app, other, not_found_error}
use demumumind_panel.Auth.{hash_key}
use demumumind_panel.Admin.{ApiKey, Admin, hashes, refreshed}

pub record CreateApiKeyRequest : Type 0 where
  pub group_id : Option String
  pub model_mapping : Fields
  pub monthly_budget : ℤ

pub record ApiKeyCreated : Type 0 where
  pub id : String
  pub api_key : String

new_key : String → String → CreateApiKeyRequest → ApiKey
new_key id key_hash body = record {
  id = id;
  key_hash = key_hash;
  group_id = body.group_id;
  model_mapping = encoded (dict body.model_mapping);
  monthly_budget = body.monthly_budget;
}

-- `create_key`; a hash that the table has is an IntegrityError
unfoldable pub create_key :
    (Value → String)
    → (String → String → String)
    → String
    → String
    → String
    → CreateApiKeyRequest
    → Admin
    → Result ApiKeyCreated × Admin
unfolding new_key
create_key to_str hmac_sha256 panel_key id hex body a =
    let raw_key = "dm-" +s hex in
    let key_hash = hash_key hmac_sha256 panel_key raw_key in
    if any (λ h. h == key_hash) (hashes a)
    then (raise (other "IntegrityError" ""), a)
    else refreshed to_str (record { id = id; api_key = raw_key })
        (record a { api_keys = a.api_keys ++ new_key id key_hash body ∷ [] })

unfoldable pub find_key : String → List ApiKey → Option ApiKey
find_key id [] = none
find_key id (k ∷ ks) = if k.id == id then some k else find_key id ks

-- session.delete(key)
unfoldable pub without_key : String → List ApiKey → List ApiKey
without_key id [] = []
without_key id (k ∷ ks) = if k.id == id then ks else k ∷ without_key id ks

-- `delete_key`
unfoldable pub delete_key : (Value → String) → String → Admin → Result Bool × Admin
delete_key to_str id a = elim (find_key id a.api_keys) [
  | none ↦ (raise (app (not_found_error ("Key not found: " +s id) none none)), a)
  | some k ↦ refreshed to_str true (record a { api_keys = without_key id a.api_keys })
]
